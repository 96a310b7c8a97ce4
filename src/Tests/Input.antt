-- ===== src/Tests/Input.antt =====
-- Runs of the accumulators.
use osdi_artifact.Prelude.{ℕ, ℤ, pos, negsuc, Bool, true, false, List, [], ◌∷◌, ◌≡◌, refl}
use osdi_artifact.Input.Event.{ScanCode, ev_key, btn_right, keycode_enter, syn_report, RawEvent}
use osdi_artifact.Input.Cursor.{CursorButtons, clear_buttons, reset, get_button_state}
use osdi_artifact.Input.Cursor.Laws.{process_all, get_button_state-process_all, reset_ignores_enter}
use osdi_artifact.Input.TouchButtons.{TouchButtons}
use osdi_artifact.Input.MultiTouch.{MultiTouch, clear_slot}
use osdi_artifact.Input.MultiTouch.ProtocolA.{Contact, packet, place, process_all-packet}
use osdi_artifact.Input.MultiTouch.ProtocolA as ProtocolA
use osdi_artifact.Tests.Mappers.{event}

abbrev clicks : List RawEvent
clicks =
    event (pos 2) (ev_key btn_right) (pos 1)
    ∷ event (pos 2) (ev_key keycode_enter) (pos 1)
    ∷ event (pos 2) syn_report (pos 0)
    ∷ []

abbrev idle : CursorButtons
unfolding clear_buttons
idle = clear_buttons

get_button_state-process_all_example :
    let w = get_button_state true (process_all true idle clicks) in
    (w.primary ≡ true)
    × (w.back ≡ true)
    × (w.tertiary ≡ false)
    × (w.forward ≡ false)
    × (w.secondary ≡ false)
unfolding idle
get_button_state-process_all_example = get_button_state-process_all true idle clicks

abbrev is_enter : ScanCode → Bool
is_enter keycode_enter = true
is_enter _ = false

reset_ignores_enter_example : reset is_enter idle ≡ reset (λ c. false) idle
reset_ignores_enter_example = reset_ignores_enter is_enter (λ c. false) idle is_enter-elsewhere
  where
    is_enter-elsewhere : (c : ScanCode) → (c ≡ keycode_enter → ⊥) → is_enter c ≡ false
    is_enter-elsewhere keycode_enter h = absurd (h refl)
    is_enter-elsewhere _ h = refl

abbrev untouched : TouchButtons
untouched = record {
  have_btn_touch = true;
  have_stylus = false;
  touch = false;
  stylus = false;
  stylus2 = false;
  tool_finger = false;
  tool_pen = true;
  tool_rubber = false;
  tool_brush = false;
  tool_pencil = false;
  tool_airbrush = false;
  tool_mouse = false;
  tool_lens = false;
  tool_double_tap = false;
  tool_triple_tap = false;
  tool_quad_tap = false;
}

abbrev two_slots : Bool → ℤ → MultiTouch
two_slots using_slots current = record {
  current_slot = current;
  slots = clear_slot ∷ clear_slot ∷ [];
  using_slots_protocol = using_slots;
  have_stylus = false;
  device_timestamp = 0;
}

abbrev contact : ℕ → ℕ → Contact
contact x y = record { when = pos 9; device_id = pos 2; x = pos x; y = pos y }

abbrev contacts : List Contact
contacts = contact 3 4 ∷ contact 5 6 ∷ contact 7 8 ∷ []

process_all-packet_example :
    (ProtocolA.process_all (two_slots false (negsuc 0)) (packet contacts)).slots
    ≡ place (clear_slot ∷ clear_slot ∷ []) contacts
process_all-packet_example = process_all-packet (two_slots false (negsuc 0)) contacts refl refl
