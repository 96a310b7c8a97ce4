-- ===== src/Tests/Keyboard.antt =====
-- Runs of a keyboard on which the keys have the numbers of their constructors' order.
use osdi_artifact.Prelude.{
  ltb, Bool, ◌&&◌, ℕ, ◌+◌, ℤ, pos, eq_ℤ, if◌then◌else◌, true, false, List, [], ◌∷◌, none, some, ◌≡◌,
  refl,
}
use osdi_artifact.Input.Event.{ScanCode, other_key, ev_key, syn_report, RawEvent}
use osdi_artifact.Mapper.KeyCode.{
  dpad_left, navigation_left, volume_up, rotation_90, rotation_180, rotation_270,
  key_code_rotation_map, rotate_value,
}
use osdi_artifact.Mapper.KeyCode.Rotation.{rotate_value-turn}
use osdi_artifact.Mapper.Keyboard.State.{
  Led, caps_lock, LedState, Keyboard, KeyMouse, KeyHub, find_key_down,
}
use osdi_artifact.Mapper.Keyboard.{process, reset, is_keyboard_or_gamepad_key}
use osdi_artifact.Mapper.Keyboard.Steps.{process_all}
use osdi_artifact.Mapper.Keyboard.Steps.Ups.{sent}
use osdi_artifact.Mapper.Keyboard.Lamps.{same_led, Lamps, LampsShow}
use osdi_artifact.Mapper.Keyboard.Lamps.Events.{process_all-reset}
use osdi_artifact.Tests.Mappers.{event}

abbrev number : ScanCode → ℤ
number (other_key n) = pos n
number _ = pos 300

-- The state is the mouse function, the number of the calls so far, and the lamps.
abbrev hub : KeyHub
hub = record {
  State = KeyMouse × ℕ × (Led → Bool);
  scan_number = number;
  btn_misc = pos 256;
  btn_mouse = pos 272;
  btn_joystick = pos 288;
  btn_digi = pos 320;
  key_ok = pos 352;
  display_id_none = pos 0;
  is_external = true;
  map_key = λ s usage meta st. some (
    if eq_ℤ s (pos 105) then dpad_left else volume_up,
    meta,
    record {
      virtual = false;
      gesture = false;
      wake = false;
      disable_key_repeat = false;
      others = 0;
    },
  );
  cancel_touch = λ when st. st;
  key_mouse = λ st. st.0;
  set_key_mouse = λ m st. (m, st.1, st.2);
  set_id = λ st. st;
  is_box = λ st. true;
  stems = λ st. [];
  should_drop_virtual_key = λ when c s st. false;
  updated_meta_state = λ c down meta. if down then meta + 1 else meta;
  is_meta_key = λ c. false;
  has_modifier = λ led meta. same_led led caps_lock && ltb 1 meta;
  has_led = λ led st. true;
  set_led = λ led b st. (st.0, st.1, λ o. if same_led led o then b else st.2 o);
  update_global_meta_state = λ meta st. st;
  fade_pointer = λ st. st;
  next_sequence_num = λ st. (st.1, (st.0, st.1 + 1, st.2));
}

abbrev lamps : Lamps hub
lamps = record {
  is_lit = λ led st. st.2 led;
  set_led = λ led other b st. refl;
  cancel_touch = λ led when st. refl;
  set_key_mouse = λ led m st. refl;
  set_id = λ led st. refl;
  update_global_meta_state = λ led meta st. refl;
  fade_pointer = λ led st. refl;
  next_sequence_num = λ led st. refl;
}

abbrev lamp : LedState
lamp = record { avail = false; on = false }

-- The left key is down.
abbrev keyboard : Keyboard
keyboard = record {
  viewport = none;
  key_downs = record { key_code = dpad_left; scan_code = pos 105 } ∷ [];
  meta_state = 0;
  down_time = pos 0;
  current_hid_usage = pos 0;
  caps = lamp;
  num = lamp;
  scroll = lamp;
  orientation_aware = false;
  handles_key_repeat = false;
}

abbrev key : ℕ → ℕ → RawEvent
key n v = event (pos 2) (ev_key (other_key n)) (pos v)

abbrev typing : List RawEvent
typing = key 115 1 ∷ key 105 1 ∷ event (pos 2) syn_report (pos 0) ∷ key 115 0 ∷ []

abbrev dark : Led → Bool
dark led = false

abbrev start : Keyboard × (KeyMouse × ℕ × (Led → Bool))
start = (keyboard, (KeyMouse.on, 1, dark))

process_all-reset_example : LampsShow hub lamps (process_all hub typing (reset hub start))
process_all-reset_example = process_all-reset hub lamps typing start

rotate_value-turn_example :
    rotate_value
      (rotate_value dpad_left rotation_90 key_code_rotation_map)
      rotation_180
      key_code_rotation_map
    ≡ rotate_value dpad_left rotation_270 key_code_rotation_map
rotate_value-turn_example = rotate_value-turn dpad_left rotation_90 rotation_180

-- The code that goes up is not the one that went down, when the mouse function is switched off
-- between the two.
mouse_switched_between :
    let went_down =
      process hub (key 105 1) (record keyboard { key_downs = [] }, (KeyMouse.on, 1, dark)) in
    let went_up = process hub (key 105 0) (went_down.0, (KeyMouse.off, 2, dark)) in
    (sent hub went_down.2 ≡ some (navigation_left, true))
    × (sent hub went_up.2 ≡ some (dpad_left, false))
unfolding process is_keyboard_or_gamepad_key find_key_down
mouse_switched_between = (refl, refl)
