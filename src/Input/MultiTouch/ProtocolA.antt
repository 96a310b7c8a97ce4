-- ===== src/Input/MultiTouch/ProtocolA.antt =====
-- A whole packet of protocol A through MultiTouchMotionAccumulator: contacts without slots, each
-- ended by SYN_MT_REPORT.
use osdi_artifact.Prelude.{
  ℕ, zero, suc, ◌+◌, ℤ, pos, negsuc, ◌+ℤ◌, true, false, List, [], ◌∷◌, ◌++◌, ◌≡◌, refl, ap, ◌∙◌,
  arith, length, length-append, ◌⊎◌, inl, inr, ◌≤◌,
}
use mathlib.Core.List.{append_assoc}
use osdi_artifact.Input.Event.{
  AbsAxis, abs_mt_position_x, abs_mt_position_y, EventKind, ev_abs, syn_mt_report, RawEvent,
}
use osdi_artifact.Input.MultiTouch.{Slot, MultiTouch, modify, process, write_slot}

pub record Contact : Type 0 where
  pub when : ℤ
  pub device_id : ℤ
  pub x : ℤ
  pub y : ℤ

abbrev event : Contact → EventKind → ℤ → RawEvent
event c k v = record { when = c.when; device_id = c.device_id; kind = k; value = v }

-- The events of the contacts, one after the other.
abbrev pub packet : List Contact → List RawEvent
packet [] = []
packet (c ∷ cs) =
    event c (ev_abs abs_mt_position_x) c.x
    ∷ event c (ev_abs abs_mt_position_y) c.y
    ∷ event c syn_mt_report (pos 0)
    ∷ packet cs

abbrev pub process_all : MultiTouch → List RawEvent → MultiTouch
process_all m [] = m
process_all m (e ∷ es) = process_all (process m e) es

abbrev touch : Contact → Slot → Slot
touch c s = record s { in_use = true; position_x = c.x; position_y = c.y }

-- The contacts in their order, as far as there are slots.
abbrev pub place : List Slot → List Contact → List Slot
place ss [] = ss
place [] (c ∷ cs) = []
place (s ∷ ss) (c ∷ cs) = touch c s ∷ place ss cs

-- The next contact goes to slot k.
abbrev IsAt : MultiTouch → ℕ → Type 0
IsAt m k =
    (m.using_slots_protocol ≡ false)
    × ((m.current_slot ≡ pos k) ⊎ ((k ≡ 0) × (m.current_slot ≡ negsuc 0)))

modify-beyond {ℓ} :
    {A : Type ℓ} (xs : List A) (i : ℕ) (f : A → A) → length xs ≤ i → modify xs i f ≡ xs
modify-beyond [] i f h = refl
modify-beyond (x ∷ xs) zero f h = absurd (omega arith)
modify-beyond (x ∷ xs) (suc i) f h = ap (λ t. x ∷ t) (modify-beyond xs i f (omega arith))

modify-modify {ℓ} :
    {A : Type ℓ} (xs : List A) (i : ℕ) (f g : A → A)
    → modify (modify xs i f) i g ≡ modify xs i (λ x. g (f x))
modify-modify [] i f g = refl
modify-modify (x ∷ xs) zero f g = refl
modify-modify (x ∷ xs) (suc i) f g = ap (λ t. x ∷ t) (modify-modify xs i f g)

-- The effect of an axis event at contact k.
axis_at : ℕ → AbsAxis → ℤ → MultiTouch → MultiTouch
axis_at k a v m = record m { current_slot = pos k; slots = modify m.slots k (write_slot false a v) }

process-axis :
    (m : MultiTouch) (k : ℕ) (c : Contact) (a : AbsAxis) (v : ℤ)
    → IsAt m k
    → process m (event c (ev_abs a) v) ≡ axis_at k a v m
unfolding process axis_at
process-axis m k c a v h = ground (arith, modify-beyond m.slots k (write_slot false a v))

axis_at-IsAt : (m : MultiTouch) (k : ℕ) (a : AbsAxis) (v : ℤ) → IsAt m k → IsAt (axis_at k a v m) k
unfolding axis_at
axis_at-IsAt m k a v h = (h.0, inl refl)

-- The effect of a contact: its slot is written and the next one becomes current.
contact_at : ℕ → Contact → MultiTouch → MultiTouch
contact_at k c m = record m { current_slot = pos (k + 1); slots = modify m.slots k (touch c) }

succ-pos : (k : ℕ) → pos k +ℤ pos 1 ≡ pos (k + 1)
unfolding ◌+ℤ◌
succ-pos k = ground arith

report_at :
    (m : MultiTouch) (k : ℕ) (c : Contact)
    → process
        (axis_at k abs_mt_position_y c.y (axis_at k abs_mt_position_x c.x m))
        (event c syn_mt_report (pos 0))
      ≡ contact_at k c m
unfolding process axis_at contact_at write_slot
report_at m k c =
    rw (succ-pos k) (rw (modify-modify m.slots k (write_slot false abs_mt_position_x c.x)) refl)

process-contact :
    (m : MultiTouch) (k : ℕ) (c : Contact) (es : List RawEvent)
    → IsAt m k
    → process_all m (packet (c ∷ []) ++ es) ≡ process_all (contact_at k c m) es
process-contact m k c es h =
    let m1 = axis_at k abs_mt_position_x c.x m in
    let h1 = axis_at-IsAt m k abs_mt_position_x c.x h in
    rw (process-axis m k c abs_mt_position_x c.x h) (
      rw (process-axis m1 k c abs_mt_position_y c.y h1)
        (ap (λ t. process_all t es) (report_at m k c)))

contact_at-IsAt :
    (m : MultiTouch) (k : ℕ) (c : Contact) → IsAt m k → IsAt (contact_at k c m) (k + 1)
unfolding contact_at
contact_at-IsAt m k c h = (h.0, inl refl)

-- Contacts from slot k on, one write for each.
place_from : List Slot → ℕ → List Contact → List Slot
place_from ss k [] = ss
place_from ss k (c ∷ cs) = place_from (modify ss k (touch c)) (k + 1) cs

process-packet :
    (m : MultiTouch) (k : ℕ) (cs : List Contact)
    → IsAt m k
    → (process_all m (packet cs)).slots ≡ place_from m.slots k cs
unfolding place_from contact_at
process-packet m k [] h = refl
process-packet m k (c ∷ cs) h =
    rw (process-contact m k c (packet cs) h)
      (process-packet (contact_at k c m) (k + 1) cs (contact_at-IsAt m k c h))

modify-append :
    (xs ys : List Slot) (f : Slot → Slot) → modify (xs ++ ys) (length xs) f ≡ xs ++ modify ys 0 f
modify-append [] ys f = refl
modify-append (x ∷ xs) ys f = ap (λ t. x ∷ t) (modify-append xs ys f)

place_from-beyond :
    (ss : List Slot) (k : ℕ) (cs : List Contact) → length ss ≤ k → place_from ss k cs ≡ ss
unfolding place_from
place_from-beyond ss k [] h = refl
place_from-beyond ss k (c ∷ cs) h =
    rw (modify-beyond ss k (touch c) h) (place_from-beyond ss (k + 1) cs (omega arith))

place_from-append :
    (done rest : List Slot) (k : ℕ) (cs : List Contact)
    → length done ≡ k
    → place_from (done ++ rest) k cs ≡ done ++ place rest cs
unfolding place_from
place_from-append done rest k [] h = refl
place_from-append done [] k (c ∷ cs) h =
    place_from-beyond (done ++ []) k (c ∷ cs) (omega (arith, length-append done []))
place_from-append done (s ∷ rest) k (c ∷ cs) h = rw (← h) (
    rw (modify-append done (s ∷ rest) (touch c)) (
      rw (← append_assoc done (touch c s ∷ []) rest) (
        place_from-append (done ++ touch c s ∷ []) rest (length done + 1) cs
          (length-append done (touch c s ∷ []) ∙ omega arith)
        ∙ append_assoc done (touch c s ∷ []) (place rest cs))))

-- From a cleared protocol A state, contact i of a packet lands in slot i, in order, and the
-- contacts beyond the last slot are dropped.
pub process_all-packet :
    (m : MultiTouch) (cs : List Contact)
    → m.using_slots_protocol ≡ false
    → m.current_slot ≡ negsuc 0
    → (process_all m (packet cs)).slots ≡ place m.slots cs
process_all-packet m cs a c =
    process-packet m 0 cs (a, inr (refl, c)) ∙ place_from-append [] m.slots 0 cs refl
