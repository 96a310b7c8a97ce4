-- ===== src/Mapper/KeyCode.antt =====
-- Key codes of InputReader.cpp, and their rotation with the display. A constructor for each constant
-- that the source names, and one for all others.
pub mod Rotation
use osdi_artifact.Prelude.{
  ℕ, zero, suc, ◌+◌, ◌==◌, Bool, true, false, if◌then◌else◌, List, [], ◌∷◌, ◌||◌,
}

pub data KeyCode : Type 0 where
  unknown profile_switch : KeyCode
  dpad_down dpad_right dpad_up dpad_left : KeyCode
  navigation_down navigation_right navigation_up navigation_left : KeyCode
  stem_primary stem_1 stem_2 stem_3 : KeyCode
  media_play media_pause media_play_pause mute headsethook media_stop : KeyCode
  media_next media_previous media_rewind media_record media_fast_forward : KeyCode
  media_skip_forward media_skip_backward media_step_forward media_step_backward : KeyCode
  media_audio_track volume_up volume_down volume_mute : KeyCode
  tv_audio_description tv_audio_description_mix_up tv_audio_description_mix_down : KeyCode
  other_key_code : ℕ → KeyCode

-- A number for each key code, to compare two of them.
abbrev index : KeyCode → ℕ
index unknown = 0
index profile_switch = 1
index dpad_down = 2
index dpad_right = 3
index dpad_up = 4
index dpad_left = 5
index navigation_down = 6
index navigation_right = 7
index navigation_up = 8
index navigation_left = 9
index stem_primary = 10
index stem_1 = 11
index stem_2 = 12
index stem_3 = 13
index media_play = 14
index media_pause = 15
index media_play_pause = 16
index mute = 17
index headsethook = 18
index media_stop = 19
index media_next = 20
index media_previous = 21
index media_rewind = 22
index media_record = 23
index media_fast_forward = 24
index media_skip_forward = 25
index media_skip_backward = 26
index media_step_forward = 27
index media_step_backward = 28
index media_audio_track = 29
index volume_up = 30
index volume_down = 31
index volume_mute = 32
index tv_audio_description = 33
index tv_audio_description_mix_up = 34
index tv_audio_description_mix_down = 35
index (other_key_code n) = 36 + n

abbrev pub same_key : KeyCode → KeyCode → Bool
same_key a b = index a == index b

unfoldable pub is_media_key : KeyCode → Bool
is_media_key media_play = true
is_media_key media_pause = true
is_media_key media_play_pause = true
is_media_key mute = true
is_media_key headsethook = true
is_media_key media_stop = true
is_media_key media_next = true
is_media_key media_previous = true
is_media_key media_rewind = true
is_media_key media_record = true
is_media_key media_fast_forward = true
is_media_key media_skip_forward = true
is_media_key media_skip_backward = true
is_media_key media_step_forward = true
is_media_key media_step_backward = true
is_media_key media_audio_track = true
is_media_key volume_up = true
is_media_key volume_down = true
is_media_key volume_mute = true
is_media_key tv_audio_description = true
is_media_key tv_audio_description_mix_up = true
is_media_key tv_audio_description_mix_down = true
is_media_key _ = false

-- DISPLAY_ORIENTATION constants.
pub data Orientation : Type 0 where
  rotation_0 rotation_90 rotation_180 rotation_270 : Orientation

-- A row of keyCodeRotationMap.
pub record Row : Type 0 where
  pub at_0 : KeyCode
  pub at_90 : KeyCode
  pub at_180 : KeyCode
  pub at_270 : KeyCode

abbrev row : KeyCode → KeyCode → KeyCode → KeyCode → Row
row a b c d = record { at_0 = a; at_90 = b; at_180 = c; at_270 = d }

unfoldable pub key_code_rotation_map : List Row
key_code_rotation_map =
    row dpad_down dpad_right dpad_up dpad_left
    ∷ row dpad_right dpad_up dpad_left dpad_down
    ∷ row dpad_up dpad_left dpad_down dpad_right
    ∷ row dpad_left dpad_down dpad_right dpad_up
    ∷ row navigation_down navigation_right navigation_up navigation_left
    ∷ row navigation_right navigation_up navigation_left navigation_down
    ∷ row navigation_up navigation_left navigation_down navigation_right
    ∷ row navigation_left navigation_down navigation_right navigation_up
    ∷ []

abbrev pub entry : Orientation → Row → KeyCode
entry rotation_0 r = r.at_0
entry rotation_90 r = r.at_90
entry rotation_180 r = r.at_180
entry rotation_270 r = r.at_270

-- The first row that starts with the value.
unfoldable pub look_up : KeyCode → Orientation → List Row → KeyCode
look_up v o [] = v
look_up v o (r ∷ rs) = if same_key v r.at_0 then entry o r else look_up v o rs

unfoldable pub rotate_value : KeyCode → Orientation → List Row → KeyCode
unfolding look_up
rotate_value v rotation_0 rs = v
rotate_value v o rs = look_up v o rs

-- A row of stemKeyRotationMap.
pub record StemRow : Type 0 where
  pub from : KeyCode
  pub to : KeyCode

unfoldable pub look_up_stem : KeyCode → List StemRow → KeyCode
look_up_stem v [] = v
look_up_stem v (r ∷ rs) = if same_key v r.from then r.to else look_up_stem v rs

unfoldable pub rotate_stem : KeyCode → Orientation → List StemRow → KeyCode
unfolding look_up_stem
rotate_stem v rotation_180 rs = look_up_stem v rs
rotate_stem v _ rs = v

-- `stems` is stemKeyRotationMap, which the configuration of a device changes.
unfoldable pub rotate_key_code : List StemRow → KeyCode → Orientation → KeyCode
unfolding rotate_stem rotate_value key_code_rotation_map
rotate_key_code stems v o = rotate_value (rotate_stem v o stems) o key_code_rotation_map
