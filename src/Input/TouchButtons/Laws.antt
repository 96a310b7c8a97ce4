-- ===== src/Input/TouchButtons/Laws.antt =====
-- The touch buttons of TouchButtonAccumulator against a history of events.
use osdi_artifact.Prelude.{
  Bool, ◌||◌, List, [], ◌∷◌, ℤ, to_bool, ◌≡◌, refl, ◌∙◌, ap, arith, if◌then◌else◌, not, true, false,
}
use osdi_artifact.Input.Event.{
  ScanCode, btn_touch, btn_stylus, btn_stylus2, btn_0, btn_tool_finger, btn_tool_pen,
  btn_tool_rubber, btn_tool_brush, btn_tool_pencil, btn_tool_airbrush, btn_tool_mouse,
  btn_tool_lens, btn_tool_doubletap, btn_tool_tripletap, btn_tool_quadtap, EventKind, ev_key,
  RawEvent,
}
use osdi_artifact.Input.TouchButtons.{
  TouchButtons, ToolType, process, get_tool_type, is_tool_active,
}

abbrev pub is_unknown : ToolType → Bool
is_unknown ToolType.unknown = true
is_unknown _ = false

-- A tool is active exactly when the surface is touched or the type of the tool is known.
is_tool_active-get_tool_type :
    (t : TouchButtons) → is_tool_active t ≡ (t.touch || not (is_unknown (get_tool_type t)))
unfolding is_tool_active get_tool_type
is_tool_active-get_tool_type t = ground arith

pub data Button : Type 0 where
  touch stylus stylus2 finger pen rubber brush pencil airbrush mouse lens : Button
  double_tap triple_tap quad_tap : Button

-- What a user sees of the accumulator: which buttons are pressed.
abbrev pub is_pressed : Button → TouchButtons → Bool
is_pressed touch t = t.touch
is_pressed stylus t = t.stylus
is_pressed stylus2 t = t.stylus2
is_pressed finger t = t.tool_finger
is_pressed pen t = t.tool_pen
is_pressed rubber t = t.tool_rubber
is_pressed brush t = t.tool_brush
is_pressed pencil t = t.tool_pencil
is_pressed airbrush t = t.tool_airbrush
is_pressed mouse t = t.tool_mouse
is_pressed lens t = t.tool_lens
is_pressed double_tap t = t.tool_double_tap
is_pressed triple_tap t = t.tool_triple_tap
is_pressed quad_tap t = t.tool_quad_tap

-- The scan codes of a button: two for the second button of a stylus, one for each other.
abbrev pub is_code_of : Button → ScanCode → Bool
is_code_of touch btn_touch = true
is_code_of stylus btn_stylus = true
is_code_of stylus2 btn_stylus2 = true
is_code_of stylus2 btn_0 = true
is_code_of finger btn_tool_finger = true
is_code_of pen btn_tool_pen = true
is_code_of rubber btn_tool_rubber = true
is_code_of brush btn_tool_brush = true
is_code_of pencil btn_tool_pencil = true
is_code_of airbrush btn_tool_airbrush = true
is_code_of mouse btn_tool_mouse = true
is_code_of lens btn_tool_lens = true
is_code_of double_tap btn_tool_doubletap = true
is_code_of triple_tap btn_tool_tripletap = true
is_code_of quad_tap btn_tool_quadtap = true
is_code_of _ _ = false

abbrev press : (ScanCode → Bool) → EventKind → ℤ → Bool → Bool
press is (ev_key c) v old = if is c then to_bool v else old
press is _ v old = old

-- The value of the last key event of a button, or the old one if the history holds none.
abbrev pub latest : (ScanCode → Bool) → Bool → List RawEvent → Bool
latest is old [] = old
latest is old (e ∷ es) = latest is (press is e.kind e.value old) es

abbrev pub process_all : TouchButtons → List RawEvent → TouchButtons
process_all t [] = t
process_all t (e ∷ es) = process_all (process t e) es

is_pressed-process :
    (b : Button) (t : TouchButtons) (e : RawEvent)
    → is_pressed b (process t e) ≡ press (is_code_of b) e.kind e.value (is_pressed b t)
unfolding process
is_pressed-process b t e = ground arith

-- After any history a button is pressed as its last key event says, whatever came between.
is_pressed-process_all :
    (b : Button) (t : TouchButtons) (es : List RawEvent)
    → is_pressed b (process_all t es) ≡ latest (is_code_of b) (is_pressed b t) es
is_pressed-process_all b t [] = refl
is_pressed-process_all b t (e ∷ es) =
    is_pressed-process_all b (process t e) es
    ∙ ap (λ old. latest (is_code_of b) old es) (is_pressed-process b t e)
