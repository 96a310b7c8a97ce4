-- ===== src/Pointer/Sync/Given.antt =====
-- In MultiTouchInputMapper::syncTouch the ids do not run out.
use osdi_artifact.Prelude.{
  ℕ, suc, ◌+◌, ◌<◌, ◌≤◌, ℤ, is_neg, Bool, true, false, List, [], ◌∷◌, Option, none, some, ◌≡◌, refl,
  arith, Bool-cases, Option-cases, inl, inr, leb,
}
use osdi_artifact.Input.MultiTouch.{Slot, MultiTouch}
use osdi_artifact.Pointer.Bits.{BitSet32}
use osdi_artifact.Pointer.Bits.Count.{room, count-mark_bit_le, count-empty}
use osdi_artifact.Pointer.Raw.{Pointer, RawPointerData, max_pointers}
use osdi_artifact.Pointer.Sync.{
  Device, Ids, Loop, slot_pointer, find_id, assign_id, give_id, emit_branch, emit, sync_slots,
  sync_touch,
}
use osdi_artifact.Pointer.Sync.Assign.{assign_id-old}

-- Each slot in use carries a tracking id.
abbrev pub AreTracked : List Slot → Type 0
AreTracked [] = Unit {0}
AreTracked (s ∷ ss) = (s.in_use ≡ true → is_neg s.tracking_id ≡ false) × AreTracked ss

module _ (bs : BitSet32) where
  open bs use {
    Bits, empty, has_bit, mark_bit, first_unmarked, is_full, marked, count, has_bit-lt,
    has_bit-first_unmarked, has_bit-empty, count-card,
  }

  -- An id below 32, and at most one more in use.
  abbrev pub IsGiven : Ids Bits → Option ℕ × Ids Bits → Type 0
  IsGiven m (none, m') = ⊥
  IsGiven m (some n, m') = (n < 32) × (count m'.bits ≤ suc (count m.bits))

  assign_id-IsGiven :
      (tid : ℤ) (m : Ids Bits)
      → is_neg tid ≡ false
      → count m.bits < 32
      → IsGiven m (assign_id bs tid m)
  unfolding assign_id
  assign_id-IsGiven tid m fits few =
      elim (Option-cases (find_id m.tracking tid (marked m.bits) none)) [
        | inl f ↦
            let free = room bs m.bits few in
            let lt = (has_bit-first_unmarked m.bits free).0 in
            rw (fits, f, free) (lt, count-mark_bit_le bs m.bits (first_unmarked m.bits) lt)
        | inr (k, f) ↦
            rw (fits, f) (has_bit-lt m.bits k (assign_id-old bs tid m k f).0, omega arith)
      ]

  -- After some slots ids are still given, and there is room for the ids of the pointers to come.
  pub record Given (start : Ids Bits) (l : Loop Bits) : Type 0 where
    pub on : l.have_ids ≡ true
    pub in_use : count l.ids.bits ≤ count start.bits + l.out_count
    pub fresh : count l.new_bits ≤ l.out_count

  give_id-Given :
      (start : Ids Bits) (p : Pointer) (l : Loop Bits) (r : Option ℕ × Ids Bits)
      → Given start l
      → IsGiven l.ids r
      → Given start
          (record (give_id bs p r.0 (record l { ids = r.1 })) { out_count = l.out_count + 1 })
  unfolding give_id
  give_id-Given start p l (none, m) v g = elim g [ ]
  give_id-Given start p l (some n, m) v (lt, le) = record {
    on = v.on;
    in_use = omega (arith, v.in_use, le);
    fresh = omega (arith, v.fresh, count-mark_bit_le bs l.new_bits n lt);
  }

  emit_branch-Given :
      (start : Ids Bits) (s : Slot) (p : Pointer) (l : Loop Bits) (on : Bool)
      → l.have_ids ≡ on
      → is_neg s.tracking_id ≡ false
      → count l.ids.bits < 32
      → Given start l
      → Given start (record (emit_branch bs s.tracking_id p on l) { out_count = l.out_count + 1 })
  unfolding emit_branch
  emit_branch-Given start s p l true e t few v =
      give_id-Given start p l (assign_id bs s.tracking_id l.ids) v
        (assign_id-IsGiven s.tracking_id l.ids t few)
  emit_branch-Given start s p l false e t few v = absurd (ground (arith, v.on, e))

  sync_slots-Given :
      (start : Ids Bits) (d : Device) (ss : List Slot) (l : Loop Bits)
      → count start.bits ≤ max_pointers
      → AreTracked ss
      → l.out_count ≤ max_pointers
      → Given start l
      → Given start (sync_slots bs d ss l) × ((sync_slots bs d ss l).out_count ≤ max_pointers)
  unfolding sync_slots emit
  sync_slots-Given start d [] l few t le v = (v, le)
  sync_slots-Given start d (s ∷ ss) l few t le v = elim (Bool-cases s.in_use) [
    | inr idle ↦ rw (idle, sync_slots) (sync_slots-Given start d ss l few t.1 le v)
    | inl used ↦ elim (Bool-cases (leb max_pointers l.out_count)) [
      | inl full ↦ rw (used, sync_slots, full) (v, le)
      | inr below_max ↦
          let p = slot_pointer d s (l.out.pointers l.out_count) in
          let below : l.out_count < max_pointers = ground (arith, below_max) in
          simp (used, sync_slots, below_max)
            (sync_slots-Given start d ss (emit bs d s l) few t.1 (omega (arith, below)) (
              emit_branch-Given start s p l l.have_ids refl (t.0 used)
                (omega (arith, v.in_use, few, below)) v))
    ]
  ]

  -- Where each slot in use carries a tracking id and at most MAX_POINTERS ids are in use, a call of
  -- syncTouch gives an id to every pointer, and leaves at most MAX_POINTERS ids in use for the next.
  pub sync_touch-Given :
      (d : Device) (m : MultiTouch) (ids : Ids Bits) (out : RawPointerData Bits)
      → AreTracked m.slots
      → count ids.bits ≤ max_pointers
      → let r = sync_touch bs d m ids out in (r.has_ids ≡ true) × (count r.kept.bits ≤ max_pointers)
  unfolding sync_touch
  sync_touch-Given d m ids out t few =
      let start : Loop Bits = record {
        out_count = 0;
        out = out;
        new_bits = empty;
        have_ids = true;
        ids = ids;
      } in
      let (v, le) =
        sync_slots-Given ids d m.slots start few t (omega arith)
          (record { on = refl; in_use = omega arith; fresh = omega (arith, count-empty bs) }) in
      (v.on, omega (arith, v.fresh, le))
