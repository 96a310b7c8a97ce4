-- ===== src/Pointer/Sync/Keeps.antt =====
-- The loop of MultiTouchInputMapper::syncTouch: which pointer stands for which slot, and which id
-- it has.
use osdi_artifact.Prelude.{
  update, ℕ, zero, suc, ◌+◌, ◌<◌, Bool, true, false, List, [], ◌∷◌, ◌++◌, Option, none, some, ◌≡◌,
  refl, sym, ◌∙◌, ap, subst, ◌⊎◌, inl, inr, arith, Bool-cases, if◌then◌else◌, length, length-append,
  get_elem?, leb,
}
use mathlib.Core.List.{append_assoc, append-nil}
use osdi_artifact.Input.MultiTouch.{Slot, MultiTouch}
use osdi_artifact.Pointer.Bits.{BitSet32}
use osdi_artifact.Pointer.Raw.{Pointer, RawPointerData, max_pointers, mark_id_bit}
use osdi_artifact.Pointer.Sync.{
  Device, Ids, Loop, slot_pointer, assign_id, give_id, emit_branch, emit, sync_slots, sync_touch,
}
use osdi_artifact.Pointer.Sync.Assign.{IsInjective, Extends, Bound, Assigned, assign_id-Assigned}

-- The slots in use, in order.
abbrev pub active : List Slot → List Slot
active [] = []
active (s ∷ ss) = if s.in_use then s ∷ active ss else active ss

-- The slots that get a pointer, when `n` pointers are there already.
abbrev pub chosen : ℕ → List Slot → List Slot
chosen n [] = []
chosen n (s ∷ ss) = if leb max_pointers n then [] else s ∷ chosen (n + 1) ss

get_elem?-snoc {ℓ} :
    {A : Type ℓ} (xs : List A) (x : A) (i : ℕ) {a : A}
    → get_elem? (xs ++ x ∷ []) i ≡ some a
    → ((i < length xs) × (get_elem? xs i ≡ some a)) ⊎ ((i ≡ length xs) × (a ≡ x))
get_elem?-snoc [] x zero h = inr (refl, ground arith)
get_elem?-snoc [] x (suc i) h = absurd (ground arith)
get_elem?-snoc (y ∷ xs) x zero h = inl (omega arith, h)
get_elem?-snoc (y ∷ xs) x (suc i) h = elim (get_elem?-snoc xs x i h) [
  | inl (lt, e) ↦ inl (omega arith, e)
  | inr (e, a) ↦ inr (ap suc e, a)
]

-- Where the loop stops: at the end, or at the first slot in use once the array is full.
abbrev reached : List Slot → List Slot → List Slot
reached done ss = done ++ chosen (length done) (active ss)

reached-step :
    (done : List Slot) (s : Slot) (ss : List Slot)
    → leb max_pointers (length done) ≡ false
    → done ++ chosen (length done) (s ∷ active ss) ≡ reached (done ++ s ∷ []) ss
reached-step done s ss room =
    rw (room, length-append done (s ∷ []), append_assoc done (s ∷ [])) refl

module _ (bs : BitSet32) where
  open bs use {Bits, empty, has_bit, mark_bit, has_bit-mark_bit, has_bit-lt, has_bit-empty}

  pointers-mark_id_bit :
      (n : ℕ) (h : Bool) (d : RawPointerData Bits) → (mark_id_bit bs n h d).pointers ≡ d.pointers
  unfolding mark_id_bit
  pointers-mark_id_bit n true d = refl
  pointers-mark_id_bit n false d = refl

  -- After the slots `done`: pointer i stands for slot i, and its id is bound to the tracking id.
  pub record Inv (start : Ids Bits) (done : List Slot) (l : Loop Bits) : Type 0 where
    pub counted : l.out_count ≡ length done
    pub injective : IsInjective bs l.ids
    pub extends : Extends bs start l.ids
    pub within : (n : ℕ) → has_bit l.new_bits n ≡ true → has_bit l.ids.bits n ≡ true
    pub bound :
        l.have_ids ≡ true
        → (i : ℕ) (s : Slot) → get_elem? done i ≡ some s
        → Bound bs l.ids (l.out.pointers i).id s.tracking_id
          × (has_bit l.new_bits (l.out.pointers i).id ≡ true)

  Extends-trans : (a b c : Ids Bits) → Extends bs a b → Extends bs b c → Extends bs a c
  Extends-trans a b c h k n e = ((k n (h n e).0).0, (k n (h n e).0).1 ∙ (h n e).1)

  give_id-Bound :
      (start : Ids Bits) (done : List Slot) (s : Slot) (p : Pointer) (l : Loop Bits) (n : ℕ)
      (m : Ids Bits)
      → Inv start done l
      → l.have_ids ≡ true
      → Extends bs l.ids m
      → Bound bs m n s.tracking_id
      → (i : ℕ) (t : Slot) → get_elem? (done ++ s ∷ []) i ≡ some t
      → let q = update l.out.pointers l.out_count (record p { id = n }) i in
        Bound bs m q.id t.tracking_id × (has_bit (mark_bit l.new_bits n) q.id ≡ true)
  give_id-Bound start done s p l n m v on ext b i t h = elim (get_elem?-snoc done s i h) [
    | inl (lt, e) ↦
        let id = (l.out.pointers i).id in
        let old = v.bound on i t e in
        ground (
          arith,
          v.counted,
          old,
          ext id old.0.0,
          has_bit-mark_bit l.new_bits n id (has_bit-lt m.bits n b.0),
        )
    | inr (e, x) ↦ ground (
      arith,
      v.counted,
      b,
      ap (λ (z : Slot). z.tracking_id) x,
      has_bit-mark_bit l.new_bits n n (has_bit-lt m.bits n b.0),
    )
  ]

  give_id-Inv :
      (start : Ids Bits) (done : List Slot) (s : Slot) (p : Pointer) (l : Loop Bits)
      (r : Option ℕ × Ids Bits)
      → Inv start done l
      → l.have_ids ≡ true
      → Assigned bs l.ids s.tracking_id r
      → Inv start
          (done ++ s ∷ [])
          (record (give_id bs p r.0 (record l { ids = r.1 })) { out_count = l.out_count + 1 })
  unfolding give_id
  give_id-Inv start done s p l (none, m) v on (inj, ext) = record {
    counted = omega (arith, v.counted, length-append done (s ∷ []));
    injective = inj;
    extends = Extends-trans start l.ids m v.extends ext;
    within = λ n h. ground (arith, has_bit-empty n);
    bound = λ h. cc;
  }
  give_id-Inv start done s p l (some n, m) v on (inj, ext, b) = record {
    counted = omega (arith, v.counted, length-append done (s ∷ []));
    injective = inj;
    extends = Extends-trans start l.ids m v.extends ext;
    within = λ k h.
        ground
          (arith, has_bit-mark_bit l.new_bits n k (has_bit-lt m.bits n b.0), v.within k, ext k);
    bound = λ _ i t h.
        subst
          (λ f.
            Bound bs m (f i).id t.tracking_id × (has_bit (mark_bit l.new_bits n) (f i).id ≡ true))
          (sym (pointers-mark_id_bit n p.is_hovering _))
          (give_id-Bound start done s p l n m v on ext b i t h);
  }

  emit_branch-Inv :
      (start : Ids Bits) (done : List Slot) (s : Slot) (p : Pointer) (l : Loop Bits) (on : Bool)
      → l.have_ids ≡ on
      → Inv start done l
      → Inv start
          (done ++ s ∷ [])
          (record (emit_branch bs s.tracking_id p on l) { out_count = l.out_count + 1 })
  unfolding emit_branch
  emit_branch-Inv start done s p l true on v =
      give_id-Inv start done s p l (assign_id bs s.tracking_id l.ids) v on
        (assign_id-Assigned bs s.tracking_id l.ids v.injective)
  emit_branch-Inv start done s p l false off v = record {
    counted = omega (arith, v.counted, length-append done (s ∷ []));
    injective = v.injective;
    extends = v.extends;
    within = v.within;
    bound = λ h. cc;
  }

  emit-Inv :
      (start : Ids Bits) (d : Device) (done : List Slot) (s : Slot) (l : Loop Bits)
      → Inv start done l
      → Inv start (done ++ s ∷ []) (emit bs d s l)
  unfolding emit
  emit-Inv start d done s l v =
      emit_branch-Inv start done s (slot_pointer d s (l.out.pointers l.out_count)) l l.have_ids refl
        v

  sync_slots-Inv :
      (start : Ids Bits) (d : Device) (ss done : List Slot) (l : Loop Bits)
      → Inv start done l
      → Inv start (reached done ss) (sync_slots bs d ss l)
  unfolding sync_slots
  sync_slots-Inv start d [] done l v = rw (append-nil done) v
  sync_slots-Inv start d (s ∷ ss) done l v = elim (Bool-cases s.in_use) [
    | inr idle ↦ rw (idle, sync_slots) (sync_slots-Inv start d ss done l v)
    | inl used ↦ elim (Bool-cases (leb max_pointers l.out_count)) [
      | inl full ↦ rw (used, sync_slots, full, ← v.counted, full, append-nil done) v
      | inr room ↦
          simp (used, sync_slots, room)
            (subst (λ t. Inv start t (sync_slots bs d ss (emit bs d s l)))
              (sym
                (reached-step done s ss (subst (λ t. leb max_pointers t ≡ false) v.counted room)))
              (sync_slots-Inv start d ss (done ++ s ∷ []) (emit bs d s l)
                (emit-Inv start d done s l v)))
    ]
  ]

  -- A call of syncTouch with the ids of the call before, none of them bound to two tracking ids: the
  -- pointers stand for the first slots in use, in order and at most MAX_POINTERS of them; as long
  -- as ids are given, the id of each pointer is in use, is bound to the tracking id of its slot, and
  -- no id is bound to two; and an id of the call before keeps its tracking id.
  pub sync_touch-binds :
      (d : Device) (m : MultiTouch) (ids : Ids Bits) (out : RawPointerData Bits)
      → IsInjective bs ids
      → let r = sync_touch bs d m ids out in
        (r.raw.pointer_count ≡ length (chosen 0 (active m.slots)))
        × IsInjective bs r.kept
        × ((n : ℕ) → has_bit ids.bits n ≡ true → r.kept.tracking n ≡ ids.tracking n)
        × (r.has_ids ≡ true
            → (i : ℕ) (s : Slot) → get_elem? (chosen 0 (active m.slots)) i ≡ some s
            → Bound bs r.kept (r.raw.pointers i).id s.tracking_id)
  unfolding sync_touch
  sync_touch-binds d m ids out inj =
      let start : Loop Bits = record {
        out_count = 0;
        out = out;
        new_bits = empty;
        have_ids = true;
        ids = ids;
      } in
      let v = sync_slots-Inv ids d m.slots [] start (record {
        counted = refl;
        injective = inj;
        extends = λ n h. (h, refl);
        within = λ n h. ground (arith, has_bit-empty n);
        bound = λ _ i s h. absurd (ground arith);
      }) in
      (
        v.counted,
        λ n k hn hk e. v.injective n k (v.within n hn) (v.within k hk) e,
        λ n h. (v.extends n h).1,
        λ on i s h. ((v.bound on i s h).1, (v.bound on i s h).0.1),
      )
