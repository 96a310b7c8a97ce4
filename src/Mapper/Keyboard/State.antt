-- ===== src/Mapper/Keyboard/State.antt =====
-- The state of KeyboardInputMapper of InputReader.cpp, what it is configured by, and what it sends.
use osdi_artifact.Prelude.{
  ℕ, ℤ, eq_ℤ, Bool, false, ◌&&◌, ◌||◌, if◌then◌else◌, List, [], ◌∷◌, Option, none, some,
}
use osdi_artifact.Input.Event.{ScanCode}
use osdi_artifact.Mapper.KeyCode.{
  KeyCode, same_key, stem_primary, stem_1, stem_2, stem_3, dpad_left, dpad_right, dpad_up,
  dpad_down, navigation_left, navigation_right, navigation_up, navigation_down, Orientation,
  rotation_0, StemRow,
}

pub record KeyDown : Type 0 where
  pub key_code : KeyCode
  pub scan_code : ℤ

pub record LedState : Type 0 where
  pub avail : Bool
  pub on : Bool

pub data Led : Type 0 where
  caps_lock num_lock scroll_lock : Led

pub record Viewport : Type 0 where
  pub orientation : Orientation
  pub display_id : ℤ

pub record Keyboard : Type 0 where
  pub viewport : Option Viewport
  pub key_downs : List KeyDown
  pub meta_state : ℕ
  pub down_time : ℤ
  pub current_hid_usage : ℤ
  pub caps : LedState
  pub num : LedState
  pub scroll : LedState
  pub orientation_aware : Bool
  pub handles_key_repeat : Bool

-- Policy flags; the source tests or sets the first four.
pub record Flags : Type 0 where
  pub virtual : Bool
  pub gesture : Bool
  pub wake : Bool
  pub disable_key_repeat : Bool
  pub others : ℕ

-- sys.KeyMouse.mKeyMouseState.
pub data KeyMouse : Type 0 where
  on off : KeyMouse
  other_state : ℕ → KeyMouse

-- NotifyKeyArgs, without the device's own id and source.
pub record KeyArgs : Type 0 where
  pub sequence_num : ℕ
  pub when : ℤ
  pub display_id : ℤ
  pub flags : Flags
  pub down : Bool
  pub key_code : KeyCode
  pub scan_code : ℤ
  pub meta_state : ℕ
  pub down_time : ℤ

pub record KeyHub : Type 1 where
  pub State : Type 0
  pub scan_number : ScanCode → ℤ
  pub btn_misc : ℤ
  pub btn_mouse : ℤ
  pub btn_joystick : ℤ
  pub btn_digi : ℤ
  pub key_ok : ℤ
  pub display_id_none : ℤ
  pub is_external : Bool
  pub map_key : ℤ → ℤ → ℕ → State → Option (KeyCode × ℕ × Flags)
  pub cancel_touch : ℤ → State → State
  pub key_mouse : State → KeyMouse
  pub set_key_mouse : KeyMouse → State → State
  pub set_id : State → State
  pub is_box : State → Bool
  pub stems : State → List StemRow
  pub should_drop_virtual_key : ℤ → KeyCode → ℤ → State → Bool
  pub updated_meta_state : KeyCode → Bool → ℕ → ℕ
  pub is_meta_key : KeyCode → Bool
  pub has_modifier : Led → ℕ → Bool
  pub has_led : Led → State → Bool
  pub set_led : Led → Bool → State → State
  pub update_global_meta_state : ℕ → State → State
  pub fade_pointer : State → State
  pub next_sequence_num : State → ℕ × State

abbrev pub no_flags : Flags
no_flags = record {
  virtual = false;
  gesture = false;
  wake = false;
  disable_key_repeat = false;
  others = 0;
}

unfoldable pub get_orientation : Keyboard → Orientation
get_orientation k = elim k.viewport [ none ↦ rotation_0 | some v ↦ v.orientation ]

-- The first key that is down with the scan code, as findKeyDown and the read behind it give it.
unfoldable pub find_key_down : ℤ → List KeyDown → Option KeyCode
find_key_down s [] = none
find_key_down s (d ∷ ds) = if eq_ℤ d.scan_code s then some d.key_code else find_key_down s ds

-- The erase of the key that findKeyDown finds.
unfoldable pub erase : ℤ → List KeyDown → List KeyDown
erase s [] = []
erase s (d ∷ ds) = if eq_ℤ d.scan_code s then ds else d ∷ erase s ds

-- The last rewrite of the key code, while the keyboard plays the mouse.
unfoldable pub to_navigation : KeyMouse → KeyCode → KeyCode
to_navigation on dpad_left = navigation_left
to_navigation on dpad_right = navigation_right
to_navigation on dpad_up = navigation_up
to_navigation on dpad_down = navigation_down
to_navigation _ c = c

-- The properties of a device's configuration file, and the viewport of the reader's. A stem key has
-- the key code of its property, where that is positive.
pub record KeyConfig : Type 0 where
  pub orientation_aware : Option Bool
  pub handles_key_repeat : Option Bool
  pub stem_primary : Option KeyCode
  pub stem_1 : Option KeyCode
  pub stem_2 : Option KeyCode
  pub stem_3 : Option KeyCode
  pub internal_viewport : Option Viewport

-- mapStemKey: the first row of the key is written.
unfoldable pub map_stem_key : KeyCode → Option KeyCode → List StemRow → List StemRow
map_stem_key c none rs = rs
map_stem_key c (some mapped) [] = []
map_stem_key c (some mapped) (r ∷ rs) =
    if same_key r.from c then record r { to = mapped } ∷ rs else r ∷ map_stem_key c (some mapped) rs

abbrev pub get_or_false : Option Bool → Bool
get_or_false none = false
get_or_false (some b) = b

-- The table of the stem keys is one for all devices.
unfoldable pub configure_parameters : KeyConfig → Keyboard × List StemRow → Keyboard × List StemRow
unfolding map_stem_key
configure_parameters cfg (k, rs) =
    let aware = get_or_false cfg.orientation_aware in
    let rs1 =
      if aware
      then map_stem_key stem_3 cfg.stem_3 (
          map_stem_key stem_2 cfg.stem_2
            (map_stem_key stem_1 cfg.stem_1 (map_stem_key stem_primary cfg.stem_primary rs)))
      else rs in
    (
      record k {
        orientation_aware = aware;
        handles_key_repeat = get_or_false cfg.handles_key_repeat;
      },
      rs1,
    )

-- `first` tells that there are no changes, `display` that they hold CHANGE_DISPLAY_INFO.
unfoldable pub configure :
    Bool → Bool → KeyConfig → Keyboard × List StemRow → Keyboard × List StemRow
unfolding configure_parameters
configure first display cfg (k, rs) =
    let (k1, rs1) = if first then configure_parameters cfg (k, rs) else (k, rs) in
    if (first || display) && k1.orientation_aware
    then (record k1 { viewport = cfg.internal_viewport }, rs1)
    else (k1, rs1)
