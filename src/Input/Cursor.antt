-- ===== src/Input/Cursor.antt =====
-- CursorButtonAccumulator, CursorMotionAccumulator and CursorScrollAccumulator of InputReader.cpp.
-- The button word is a record with a field for each bit that the source sets, and the system
-- property sys.KeyMouse.mKeyMouseState enters as the result of its test against "on". The readers
-- of the device's current state are arguments.
pub mod Laws
use osdi_artifact.Prelude.{
  Bool, true, false, ◌||◌, ◌&&◌, if◌then◌else◌, List, [], ◌∷◌, ℤ, pos, zero, to_bool,
}
use osdi_artifact.Input.Event.{
  ScanCode, btn_left, btn_right, btn_middle, btn_back, btn_side, btn_forward, btn_extra, btn_task,
  keycode_enter, keycode_dpad_center, RelAxis, rel_x, rel_y, rel_wheel, rel_hwheel, EventKind,
  ev_key, ev_rel, RawEvent,
}

pub record CursorButtons : Type 0 where
  pub left : Bool
  pub right : Bool
  pub middle : Bool
  pub back : Bool
  pub side : Bool
  pub forward : Bool
  pub extra : Bool
  pub task : Bool
  pub ok : Bool

-- The bits of the AMOTION_EVENT_BUTTON word that the cursor sets.
pub record ButtonState : Type 0 where
  pub primary : Bool
  pub secondary : Bool
  pub tertiary : Bool
  pub back : Bool
  pub forward : Bool

abbrev pub no_buttons : ButtonState
no_buttons = record {
  primary = false;
  secondary = false;
  tertiary = false;
  back = false;
  forward = false;
}

unfoldable pub clear_buttons : CursorButtons
clear_buttons = record {
  left = false;
  right = false;
  middle = false;
  back = false;
  side = false;
  forward = false;
  extra = false;
  task = false;
  ok = false;
}

-- The later assignment to `mBtnOk` replaces the one before it.
unfoldable pub reset : (ScanCode → Bool) → CursorButtons → CursorButtons
reset is_key_pressed b =
    let b' : CursorButtons = record {
      left = is_key_pressed btn_left;
      right = is_key_pressed btn_right;
      middle = is_key_pressed btn_middle;
      back = is_key_pressed btn_back;
      side = is_key_pressed btn_side;
      forward = is_key_pressed btn_forward;
      extra = is_key_pressed btn_extra;
      task = is_key_pressed btn_task;
      ok = is_key_pressed keycode_enter;
    } in
    record b' { ok = is_key_pressed keycode_dpad_center }

process_key : Bool → ScanCode → ℤ → CursorButtons → CursorButtons
process_key key_mouse btn_left v b = record b { left = to_bool v }
process_key key_mouse btn_right v b = record b { right = to_bool v }
process_key key_mouse btn_middle v b = record b { middle = to_bool v }
process_key key_mouse btn_back v b = record b { back = to_bool v }
process_key key_mouse btn_side v b = record b { side = to_bool v }
process_key key_mouse btn_forward v b = record b { forward = to_bool v }
process_key key_mouse btn_extra v b = record b { extra = to_bool v }
process_key key_mouse btn_task v b = record b { task = to_bool v }
process_key key_mouse keycode_enter v b = if key_mouse then record b { ok = to_bool v } else b
process_key key_mouse keycode_dpad_center v b = if key_mouse then record b { ok = to_bool v } else b
process_key key_mouse _ v b = b

on_key : Bool → EventKind → ℤ → CursorButtons → CursorButtons
unfolding process_key
on_key key_mouse (ev_key c) v b = process_key key_mouse c v b
on_key key_mouse _ v b = b

unfoldable pub process : Bool → CursorButtons → RawEvent → CursorButtons
unfolding on_key
process key_mouse b e = on_key key_mouse e.kind e.value b

-- Each `if` of the source, in its order.
unfoldable pub get_button_state : Bool → CursorButtons → ButtonState
get_button_state key_mouse b =
    let r0 = no_buttons in
    let r1 : ButtonState =
      if b.ok then (if key_mouse then record r0 { primary = true } else r0) else r0 in
    let r2 : ButtonState = if b.left then record r1 { primary = true } else r1 in
    let r3 : ButtonState = if b.right then record r2 { back = true } else r2 in
    let r4 : ButtonState = if b.middle then record r3 { tertiary = true } else r3 in
    let r5 : ButtonState = if b.back || b.side then record r4 { back = true } else r4 in
    if b.forward || b.extra then record r5 { forward = true } else r5

-- The relative motion of the cursor.
pub record CursorMotion : Type 0 where
  pub x : ℤ
  pub y : ℤ

unfoldable pub clear_motion : CursorMotion
clear_motion = record { x = pos 0; y = pos 0 }

on_motion : EventKind → ℤ → CursorMotion → CursorMotion
on_motion (ev_rel rel_x) v m = record m { x = v }
on_motion (ev_rel rel_y) v m = record m { y = v }
on_motion _ v m = m

unfoldable pub process_motion : CursorMotion → RawEvent → CursorMotion
unfolding on_motion
process_motion m e = on_motion e.kind e.value m

unfoldable pub finish_sync_motion : CursorMotion → CursorMotion
unfolding clear_motion
finish_sync_motion m = clear_motion

-- The scroll wheels. The fields `mRelX` and `mRelY` of the class are never written, and left out.
pub record CursorScroll : Type 0 where
  pub have_wheel : Bool
  pub have_hwheel : Bool
  pub wheel : ℤ
  pub hwheel : ℤ

unfoldable pub configure_scroll : (RelAxis → Bool) → CursorScroll → CursorScroll
configure_scroll has_relative_axis s = record s {
  have_wheel = has_relative_axis rel_wheel;
  have_hwheel = has_relative_axis rel_hwheel;
}

unfoldable pub clear_scroll : CursorScroll → CursorScroll
clear_scroll s = record s { wheel = pos 0; hwheel = pos 0 }

on_scroll : EventKind → ℤ → CursorScroll → CursorScroll
on_scroll (ev_rel rel_wheel) v s = record s { wheel = v }
on_scroll (ev_rel rel_hwheel) v s = record s { hwheel = v }
on_scroll _ v s = s

unfoldable pub process_scroll : CursorScroll → RawEvent → CursorScroll
unfolding on_scroll
process_scroll s e = on_scroll e.kind e.value s

unfoldable pub finish_sync_scroll : CursorScroll → CursorScroll
unfolding clear_scroll
finish_sync_scroll s = clear_scroll s
