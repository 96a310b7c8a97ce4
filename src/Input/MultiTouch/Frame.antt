-- ===== src/Input/MultiTouch/Frame.antt =====
-- What an event of MultiTouchMotionAccumulator leaves alone.
use osdi_artifact.Prelude.{
  ℕ, zero, suc, ◌<◌, ℤ, pos, negsuc, List, [], ◌∷◌, some, ◌≡◌, ◌≢◌, refl, ap, ◌∙◌, arith, length,
  get_elem?,
}
use osdi_artifact.Input.Event.{AbsAxis, EventKind, ev_abs, RawEvent}
use osdi_artifact.Input.MultiTouch.{
  MultiTouch, modify, on_event, process, select_slot, write_current, write_slot,
}

module _ {ℓ} {A : Type ℓ} where
  pub length-modify : (xs : List A) (i : ℕ) (f : A → A) → length (modify xs i f) ≡ length xs
  length-modify [] i f = refl
  length-modify (x ∷ xs) zero f = refl
  length-modify (x ∷ xs) (suc i) f = ap suc (length-modify xs i f)

  pub get_elem?-modify_ne :
      (xs : List A) (i j : ℕ) (f : A → A) → i ≢ j → get_elem? (modify xs i f) j ≡ get_elem? xs j
  get_elem?-modify_ne [] i j f h = refl
  get_elem?-modify_ne (x ∷ xs) zero zero f h = absurd (h refl)
  get_elem?-modify_ne (x ∷ xs) zero (suc j) f h = refl
  get_elem?-modify_ne (x ∷ xs) (suc i) zero f h = refl
  get_elem?-modify_ne (x ∷ xs) (suc i) (suc j) f h =
      get_elem?-modify_ne xs i j f (λ e. h (ap suc e))

  pub get_elem?-modify_self :
      (xs : List A) (i : ℕ) (f : A → A) {a : A}
      → get_elem? xs i ≡ some a
      → get_elem? (modify xs i f) i ≡ some (f a)
  get_elem?-modify_self [] i f h = cc
  get_elem?-modify_self (x ∷ xs) zero f h = ground arith
  get_elem?-modify_self (x ∷ xs) (suc i) f h = get_elem?-modify_self xs i f h

  pub get_elem?-lt : (xs : List A) (i : ℕ) {a : A} → get_elem? xs i ≡ some a → i < length xs
  get_elem?-lt [] i h = absurd (ground arith)
  get_elem?-lt (x ∷ xs) zero h = omega arith
  get_elem?-lt (x ∷ xs) (suc i) h = omega (arith, get_elem?-lt xs i h)

write_current_keeps :
    (c : AbsAxis) (v i : ℤ) (m : MultiTouch)
    → (length (write_current c v i m).slots ≡ length m.slots)
      × ((write_current c v i m).using_slots_protocol ≡ m.using_slots_protocol)
      × ((write_current c v i m).current_slot ≡ m.current_slot)
unfolding write_current
write_current_keeps c v (negsuc n) m = (refl, refl, refl)
write_current_keeps c v (pos n) m =
    ground (arith, length-modify m.slots n (write_slot m.using_slots_protocol c v))

on_event_keeps :
    (k : EventKind) (v : ℤ) (m : MultiTouch)
    → (length (on_event k v m).slots ≡ length m.slots)
      × ((on_event k v m).using_slots_protocol ≡ m.using_slots_protocol)
unfolding on_event
on_event_keeps (ev_abs c) v m =
    let i = select_slot c v m in
    let h = write_current_keeps c v i (record m { current_slot = i }) in (h.0, h.1)
on_event_keeps _ v m = (refl, refl)

-- Every event keeps the number of slots and the protocol.
process_keeps_shape :
    (m : MultiTouch) (e : RawEvent)
    → (length (process m e).slots ≡ length m.slots)
      × ((process m e).using_slots_protocol ≡ m.using_slots_protocol)
unfolding process
process_keeps_shape m e = on_event_keeps e.kind e.value m

write_current_frame :
    (c : AbsAxis) (v i : ℤ) (m : MultiTouch) (j : ℕ)
    → i ≢ pos j
    → get_elem? (write_current c v i m).slots j ≡ get_elem? m.slots j
unfolding write_current
write_current_frame c v (negsuc n) m j h = refl
write_current_frame c v (pos n) m j h = ground (
  arith,
  get_elem?-modify_ne m.slots n j (write_slot m.using_slots_protocol c v) (λ e. h (ap pos e)),
)

on_event_frame :
    (k : EventKind) (v : ℤ) (m : MultiTouch) (j : ℕ)
    → (on_event k v m).current_slot ≢ pos j
    → get_elem? (on_event k v m).slots j ≡ get_elem? m.slots j
unfolding on_event
on_event_frame (ev_abs c) v m j h =
    let i = select_slot c v m in
    write_current_frame c v i (record m { current_slot = i }) j
      (λ e. h ((write_current_keeps c v i (record m { current_slot = i })).2 ∙ e))
on_event_frame _ v m j h = refl

-- An event writes no slot but the one that is current after it.
pub process_frame :
    (m : MultiTouch) (e : RawEvent) (j : ℕ)
    → (process m e).current_slot ≢ pos j
    → get_elem? (process m e).slots j ≡ get_elem? m.slots j
unfolding process
process_frame m e j h = on_event_frame e.kind e.value m j h
