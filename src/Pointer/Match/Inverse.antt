-- ===== src/Pointer/Match/Inverse.antt =====
-- After assignPointerIds the ids of the pointers are distinct, and idToIndex inverts them.
use osdi_artifact.Prelude.{
  ℕ, zero, suc, ◌+◌, ◌<◌, ◌≤◌, ◌==◌, true, false, ◌≡◌, refl, sym, ap, ◌∙◌, subst, arith, update,
  Bool-cases, inl, inr, ltb,
}
use osdi_artifact.Pointer.Bits.{BitSet32}
use osdi_artifact.Pointer.Bits.Card.{card, card-full, card-bounded}
use osdi_artifact.Pointer.Bits.Count.{room, count-mark_bit, first_unmarked-lt}
use osdi_artifact.Pointer.Raw.{RawPointerData, mark_id_bit}
use osdi_artifact.Pointer.Match.{Match, set_id, give_fresh, number_all}

module _ (bs : BitSet32) where
  open bs use {
    Bits, empty, has_bit, mark_bit, first_unmarked, is_full, count, has_bit-empty, has_bit-mark_bit,
    has_bit-first_unmarked, has_bit-below_first, has_bit-is_full, count-card, has_bit-lt,
  }

  pointers-set_id :
      (c id : ℕ) (d : RawPointerData Bits)
      → (set_id bs c id d).pointers ≡ update d.pointers c (record (d.pointers c) { id = id })
  unfolding set_id mark_id_bit
  pointers-set_id c id d = ground arith

  id_to_index-set_id :
      (c id : ℕ) (d : RawPointerData Bits)
      → (set_id bs c id d).id_to_index ≡ update d.id_to_index id c
  unfolding set_id mark_id_bit
  id_to_index-set_id c id d = ground arith

  -- The pointers `cs` have the ids `ids`, each its own; idToIndex leads back. All lie below `total`.
  pub record Inverse (total : ℕ) (cs ids : Bits) (d : RawPointerData Bits) : Type 0 where
    pub has_id :
        (c : ℕ)
        → has_bit cs c ≡ true
        → (has_bit ids (d.pointers c).id ≡ true) × (d.id_to_index (d.pointers c).id ≡ c)
    pub has_owner :
        (n : ℕ)
        → has_bit ids n ≡ true
        → (has_bit cs (d.id_to_index n) ≡ true) × ((d.pointers (d.id_to_index n)).id ≡ n)
    pub balanced : count cs ≡ count ids
    pub below : (c : ℕ) → has_bit cs c ≡ true → c < total

  set_id-has_id :
      (total : ℕ) (cs ids : Bits) (d : RawPointerData Bits) (c n : ℕ)
      → Inverse total cs ids d
      → c < 32
      → n < 32
      → has_bit cs c ≡ false
      → has_bit ids n ≡ false
      → (x : ℕ) → has_bit (mark_bit cs c) x ≡ true
      → let q = update d.pointers c (record (d.pointers c) { id = n }) in
        (has_bit (mark_bit ids n) (q x).id ≡ true) × (update d.id_to_index n c (q x).id ≡ x)
  set_id-has_id total cs ids d c n v hc hn fc fn x m = elim (Bool-cases (c == x)) [
    | inl same ↦ ground (arith, same, has_bit-mark_bit ids n n hn)
    | inr other ↦
        let old = v.has_id x (ground (arith, m, other, has_bit-mark_bit cs c x hc)) in
        ground (arith, other, old, fn, has_bit-mark_bit ids n (d.pointers x).id hn)
  ]

  set_id-has_owner :
      (total : ℕ) (cs ids : Bits) (d : RawPointerData Bits) (c n : ℕ)
      → Inverse total cs ids d
      → c < 32
      → n < 32
      → has_bit cs c ≡ false
      → has_bit ids n ≡ false
      → (x : ℕ) → has_bit (mark_bit ids n) x ≡ true
      → let q = update d.pointers c (record (d.pointers c) { id = n }) in
        let i = update d.id_to_index n c x in (has_bit (mark_bit cs c) i ≡ true) × ((q i).id ≡ x)
  set_id-has_owner total cs ids d c n v hc hn fc fn x m = elim (Bool-cases (n == x)) [
    | inl same ↦ ground (arith, same, has_bit-mark_bit cs c c hc)
    | inr other ↦
        let old = v.has_owner x (ground (arith, m, other, has_bit-mark_bit ids n x hn)) in
        ground (arith, other, old, fc, has_bit-mark_bit cs c (d.id_to_index x) hc)
  ]

  -- A pointer without an id gets an id that no other has.
  pub set_id-Inverse :
      (total : ℕ) (cs ids : Bits) (d : RawPointerData Bits) (c n : ℕ)
      → Inverse total cs ids d
      → total ≤ 32
      → c < total
      → n < 32
      → has_bit cs c ≡ false
      → has_bit ids n ≡ false
      → Inverse total (mark_bit cs c) (mark_bit ids n) (set_id bs c n d)
  set_id-Inverse total cs ids d c n v small hc hn fc fn =
      let hc32 : c < 32 = omega (arith, hc, small) in
      record {
        has_id = λ x m.
            rw (pointers-set_id c n d, id_to_index-set_id c n d)
              (set_id-has_id total cs ids d c n v hc32 hn fc fn x m);
        has_owner = λ x m.
            rw (pointers-set_id c n d, id_to_index-set_id c n d)
              (set_id-has_owner total cs ids d c n v hc32 hn fc fn x m);
        balanced =
            count-mark_bit bs cs c hc32 fc
            ∙ (ap suc v.balanced ∙ sym (count-mark_bit bs ids n hn fn));
        below = λ x m. ground (arith, hc, m, has_bit-mark_bit cs c x hc32, v.below x);
      }

  -- The fresh ids: every pointer has an id in the end.
  pub give_fresh-Inverse :
      (total n : ℕ) (m : Match Bits)
      → total ≤ 32
      → count m.matched_current + n ≡ total
      → Inverse total m.matched_current m.used m.out
      → let r = give_fresh bs n m in
        Inverse total r.matched_current r.used r.out × (count r.matched_current ≡ total)
  unfolding give_fresh
  give_fresh-Inverse total zero m small h v = (v, omega (arith, h))
  give_fresh-Inverse total (suc n) m small h v =
      let few : count m.matched_current < total = omega (arith, h) in
      let few32 : count m.matched_current < 32 = omega (arith, few, small) in
      let roomy = room bs m.matched_current few32 in
      let roomy_ids = room bs m.used (subst (λ k. k < 32) v.balanced few32) in
      let (lt, free) = has_bit-first_unmarked m.matched_current roomy in
      let (lt_id, free_id) = has_bit-first_unmarked m.used roomy_ids in
      give_fresh-Inverse total n _ small
        (omega (
          arith,
          h,
          count-mark_bit bs m.matched_current (first_unmarked m.matched_current) lt free,
        ))
        (set_id-Inverse total m.matched_current m.used m.out (first_unmarked m.matched_current)
          (first_unmarked m.used) v small (first_unmarked-lt bs m.matched_current total small few)
          lt_id free free_id)

  -- As many pointers with ids as there are pointers are all of them.
  pub all_have_ids :
      (total : ℕ) (cs ids : Bits) (d : RawPointerData Bits)
      → total ≤ 32
      → Inverse total cs ids d
      → count cs ≡ total
      → (c : ℕ) → c < total
      → (d.id_to_index (d.pointers c).id ≡ c) × ((d.pointers c).id < 32)
  all_have_ids total cs ids d small v h c lt =
      let full : card (has_bit cs) total ≡ total =
        sym (card-bounded (has_bit cs) total 32 v.below small) ∙ (sym (count-card cs) ∙ h) in
      let marked = card-full (has_bit cs) total c full lt in
      let (in_use, back) = v.has_id c marked in (back, has_bit-lt ids (d.pointers c).id in_use)

  pub none_has_id : (total : ℕ) (d : RawPointerData Bits) → Inverse total empty empty d
  none_has_id total d = record {
    has_id = λ c h. absurd (ground (arith, h, has_bit-empty c));
    has_owner = λ n h. absurd (ground (arith, h, has_bit-empty n));
    balanced = refl;
    below = λ c h. absurd (ground (arith, h, has_bit-empty c));
  }

  -- Where all pointers are new, pointer i gets id i.
  pub number_all-Inverse :
      (total n : ℕ) (cs : Bits) (d : RawPointerData Bits) (i : ℕ)
      → total ≤ 32
      → i + n ≡ total
      → ((m : ℕ) → has_bit cs m ≡ ltb m i)
      → Inverse total cs cs d
      → (c : ℕ) → c < total
      → let r = number_all bs n i d in
        (r.id_to_index (r.pointers c).id ≡ c) × ((r.pointers c).id < 32)
  unfolding number_all
  number_all-Inverse total zero cs d i small h bits v c lt =
      let (in_use, back) = v.has_id c (ground (arith, bits c, h, lt)) in
      (back, has_bit-lt cs (d.pointers c).id in_use)
  number_all-Inverse total (suc n) cs d i small h bits v c lt =
      let hi : i < total = omega (arith, h) in
      let hi32 : i < 32 = omega (arith, hi, small) in
      let free : has_bit cs i ≡ false = bits i ∙ ground arith in
      number_all-Inverse total n (mark_bit cs i) (set_id bs i i d) (suc i) small (omega (arith, h))
        (λ m. has_bit-mark_bit cs i m hi32 ∙ ground (arith, bits m))
        (set_id-Inverse total cs cs d i i v small hi hi32 free free) c lt
