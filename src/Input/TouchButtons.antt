-- ===== src/Input/TouchButtons.antt =====
-- TouchButtonAccumulator of InputReader.cpp.
pub mod Laws
use osdi_artifact.Prelude.{Bool, true, false, not, ◌||◌, ◌&&◌, if◌then◌else◌, ℤ, to_bool}
use osdi_artifact.Input.Event.{
  ScanCode, btn_touch, btn_stylus, btn_stylus2, btn_0, btn_tool_finger, btn_tool_pen,
  btn_tool_rubber, btn_tool_brush, btn_tool_pencil, btn_tool_airbrush, btn_tool_mouse,
  btn_tool_lens, btn_tool_doubletap, btn_tool_tripletap, btn_tool_quadtap, EventKind, ev_key,
  RawEvent,
}

pub record TouchButtons : Type 0 where
  pub have_btn_touch : Bool
  pub have_stylus : Bool
  pub touch : Bool
  pub stylus : Bool
  pub stylus2 : Bool
  pub tool_finger : Bool
  pub tool_pen : Bool
  pub tool_rubber : Bool
  pub tool_brush : Bool
  pub tool_pencil : Bool
  pub tool_airbrush : Bool
  pub tool_mouse : Bool
  pub tool_lens : Bool
  pub tool_double_tap : Bool
  pub tool_triple_tap : Bool
  pub tool_quad_tap : Bool

-- AMOTION_EVENT_TOOL_TYPE constants.
pub data ToolType : Type 0 where
  unknown finger stylus mouse eraser : ToolType

unfoldable pub configure : (ScanCode → Bool) → TouchButtons → TouchButtons
configure has_key t = record t {
  have_btn_touch = has_key btn_touch;
  have_stylus =
      has_key btn_tool_pen
      || has_key btn_tool_rubber
      || has_key btn_tool_brush
      || has_key btn_tool_pencil
      || has_key btn_tool_airbrush;
}

unfoldable pub reset : (ScanCode → Bool) → TouchButtons → TouchButtons
reset is_key_pressed t = record t {
  touch = is_key_pressed btn_touch;
  stylus = is_key_pressed btn_stylus;
  stylus2 = is_key_pressed btn_stylus2 || is_key_pressed btn_0;
  tool_finger = is_key_pressed btn_tool_finger;
  tool_pen = is_key_pressed btn_tool_pen;
  tool_rubber = is_key_pressed btn_tool_rubber;
  tool_brush = is_key_pressed btn_tool_brush;
  tool_pencil = is_key_pressed btn_tool_pencil;
  tool_airbrush = is_key_pressed btn_tool_airbrush;
  tool_mouse = is_key_pressed btn_tool_mouse;
  tool_lens = is_key_pressed btn_tool_lens;
  tool_double_tap = is_key_pressed btn_tool_doubletap;
  tool_triple_tap = is_key_pressed btn_tool_tripletap;
  tool_quad_tap = is_key_pressed btn_tool_quadtap;
}

unfoldable pub clear_buttons : TouchButtons → TouchButtons
clear_buttons t = record t {
  touch = false;
  stylus = false;
  stylus2 = false;
  tool_finger = false;
  tool_pen = false;
  tool_rubber = false;
  tool_brush = false;
  tool_pencil = false;
  tool_airbrush = false;
  tool_mouse = false;
  tool_lens = false;
  tool_double_tap = false;
  tool_triple_tap = false;
  tool_quad_tap = false;
}

process_key : ScanCode → ℤ → TouchButtons → TouchButtons
process_key btn_touch v t = record t { touch = to_bool v }
process_key btn_stylus v t = record t { stylus = to_bool v }
process_key btn_stylus2 v t = record t { stylus2 = to_bool v }
process_key btn_0 v t = record t { stylus2 = to_bool v }
process_key btn_tool_finger v t = record t { tool_finger = to_bool v }
process_key btn_tool_pen v t = record t { tool_pen = to_bool v }
process_key btn_tool_rubber v t = record t { tool_rubber = to_bool v }
process_key btn_tool_brush v t = record t { tool_brush = to_bool v }
process_key btn_tool_pencil v t = record t { tool_pencil = to_bool v }
process_key btn_tool_airbrush v t = record t { tool_airbrush = to_bool v }
process_key btn_tool_mouse v t = record t { tool_mouse = to_bool v }
process_key btn_tool_lens v t = record t { tool_lens = to_bool v }
process_key btn_tool_doubletap v t = record t { tool_double_tap = to_bool v }
process_key btn_tool_tripletap v t = record t { tool_triple_tap = to_bool v }
process_key btn_tool_quadtap v t = record t { tool_quad_tap = to_bool v }
process_key _ v t = t

on_key : EventKind → ℤ → TouchButtons → TouchButtons
unfolding process_key
on_key (ev_key c) v t = process_key c v t
on_key _ v t = t

unfoldable pub process : TouchButtons → RawEvent → TouchButtons
unfolding on_key
process t e = on_key e.kind e.value t

-- The two bits of the AMOTION_EVENT_BUTTON word that a stylus sets.
pub record StylusState : Type 0 where
  pub primary : Bool
  pub secondary : Bool

unfoldable pub get_button_state : TouchButtons → StylusState
get_button_state t =
    let r0 : StylusState = record { primary = false; secondary = false } in
    let r1 : StylusState = if t.stylus then record r0 { primary = true } else r0 in
    if t.stylus2 then record r1 { secondary = true } else r1

unfoldable pub get_tool_type : TouchButtons → ToolType
get_tool_type t =
    if t.tool_mouse || t.tool_lens
    then mouse
    else if t.tool_rubber
    then eraser
    else if t.tool_pen || t.tool_brush || t.tool_pencil || t.tool_airbrush
    then ToolType.stylus
    else if t.tool_finger || t.tool_double_tap || t.tool_triple_tap || t.tool_quad_tap
    then finger
    else unknown

unfoldable pub is_tool_active : TouchButtons → Bool
is_tool_active t =
    t.touch || t.tool_finger || t.tool_pen || t.tool_rubber || t.tool_brush || t.tool_pencil
    || t.tool_airbrush || t.tool_mouse || t.tool_lens || t.tool_double_tap || t.tool_triple_tap
    || t.tool_quad_tap

unfoldable pub is_hovering : TouchButtons → Bool
is_hovering t = t.have_btn_touch && not t.touch

unfoldable pub has_stylus : TouchButtons → Bool
has_stylus t = t.have_stylus
