-- ===== src/Input/Cursor/Laws.antt =====
-- The cursor's buttons of CursorButtonAccumulator against a history of events.
use osdi_artifact.Prelude.{
  Bool, true, false, ◌||◌, ◌&&◌, List, [], ◌∷◌, ℤ, to_bool, ◌≡◌, refl, ◌∙◌, ap, arith,
  if◌then◌else◌,
}
use osdi_artifact.Input.Event.{
  ScanCode, btn_left, btn_right, btn_middle, btn_back, btn_side, btn_forward, btn_extra, btn_task,
  keycode_enter, keycode_dpad_center, EventKind, ev_key, RawEvent,
}
use osdi_artifact.Input.Cursor.{CursorButtons, process, get_button_state, reset}

pub data Button : Type 0 where
  left right middle back side forward extra task ok : Button

abbrev pub pressed : Button → CursorButtons → Bool
pressed left b = b.left
pressed right b = b.right
pressed middle b = b.middle
pressed back b = b.back
pressed side b = b.side
pressed forward b = b.forward
pressed extra b = b.extra
pressed task b = b.task
pressed ok b = b.ok

-- The scan codes of a button; those of `ok` count only while the keyboard plays the mouse.
abbrev pub is_code_of : Bool → Button → ScanCode → Bool
is_code_of key_mouse left btn_left = true
is_code_of key_mouse right btn_right = true
is_code_of key_mouse middle btn_middle = true
is_code_of key_mouse back btn_back = true
is_code_of key_mouse side btn_side = true
is_code_of key_mouse forward btn_forward = true
is_code_of key_mouse extra btn_extra = true
is_code_of key_mouse task btn_task = true
is_code_of key_mouse ok keycode_enter = key_mouse
is_code_of key_mouse ok keycode_dpad_center = key_mouse
is_code_of _ _ _ = false

abbrev press : (ScanCode → Bool) → EventKind → ℤ → Bool → Bool
press is (ev_key c) v old = if is c then to_bool v else old
press is _ v old = old

-- The value of the last key event of a button, or the old one if the history holds none.
abbrev pub latest : (ScanCode → Bool) → Bool → List RawEvent → Bool
latest is old [] = old
latest is old (e ∷ es) = latest is (press is e.kind e.value old) es

abbrev pub process_all : Bool → CursorButtons → List RawEvent → CursorButtons
process_all key_mouse b [] = b
process_all key_mouse b (e ∷ es) = process_all key_mouse (process key_mouse b e) es

pressed-process :
    (key_mouse : Bool) (n : Button) (b : CursorButtons) (e : RawEvent)
    → pressed n (process key_mouse b e)
      ≡ press (is_code_of key_mouse n) e.kind e.value (pressed n b)
unfolding process
pressed-process key_mouse n b e = ground arith

-- After any history a button is pressed as its last key event says; with the key mouse off no
-- event reaches `ok`.
pub pressed-process_all :
    (key_mouse : Bool) (n : Button) (b : CursorButtons) (es : List RawEvent)
    → pressed n (process_all key_mouse b es) ≡ latest (is_code_of key_mouse n) (pressed n b) es
pressed-process_all key_mouse n b [] = refl
pressed-process_all key_mouse n b (e ∷ es) =
    pressed-process_all key_mouse n (process key_mouse b e) es
    ∙ ap (λ old. latest (is_code_of key_mouse n) old es) (pressed-process key_mouse n b e)

-- What the button word says of a history: the right button reports BACK, and SECONDARY is never
-- reported.
pub get_button_state-process_all :
    (key_mouse : Bool) (b : CursorButtons) (es : List RawEvent)
    → let now = λ (n : Button). latest (is_code_of key_mouse n) (pressed n b) es in
      let w = get_button_state key_mouse (process_all key_mouse b es) in
      (w.primary ≡ (now left || (now ok && key_mouse)))
      × (w.back ≡ (now right || now back || now side))
      × (w.tertiary ≡ now middle)
      × (w.forward ≡ (now forward || now extra))
      × (w.secondary ≡ false)
unfolding get_button_state
get_button_state-process_all key_mouse b es =
    let h = λ (n : Button). pressed-process_all key_mouse n b es in
    ground (arith, h left, h ok, h right, h back, h side, h middle, h forward, h extra)

-- The reset reads the centre key of a pad into `ok`, and the Enter key never: two devices that
-- differ in Enter alone are reset to the same state.
pub reset_ignores_enter :
    (f g : ScanCode → Bool) (b : CursorButtons)
    → ((c : ScanCode) → (c ≡ keycode_enter → ⊥) → f c ≡ g c)
    → reset f b ≡ reset g b
unfolding reset
reset_ignores_enter f g b h = ground (
  arith,
  h btn_left (λ e. cc),
  h btn_right (λ e. cc),
  h btn_middle (λ e. cc),
  h btn_back (λ e. cc),
  h btn_side (λ e. cc),
  h btn_forward (λ e. cc),
  h btn_extra (λ e. cc),
  h btn_task (λ e. cc),
  h keycode_dpad_center (λ e. cc),
)
