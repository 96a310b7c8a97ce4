-- ===== src/Pointer/Match/Ids.antt =====
-- What assignPointerIds promises: every pointer has an id, and no two the same.
use osdi_artifact.Prelude.{
  ℕ, ◌-◌, ◌<◌, ◌≤◌, ◌==◌, ◌&&◌, true, ◌≡◌, ◌∙◌, subst, arith, Bool-cases, inl, inr, min,
}
use osdi_artifact.Pointer.Bits.{BitSet32}
use osdi_artifact.Pointer.Bits.Card.{card-bounded, card-le}
use osdi_artifact.Pointer.Raw.{RawPointerData, clear_id_bits, mark_id_bit}
use osdi_artifact.Pointer.Heap.{Heap, same_tool, collect, heapify}
use osdi_artifact.Pointer.Heap.Range.{collect-AllNamed, heapify-AllNamed}
use osdi_artifact.Pointer.Match.{Match, set_id, rounds, match_all, assign_pointer_ids}
use osdi_artifact.Pointer.Match.Inverse.{
  Inverse, none_has_id, give_fresh-Inverse, all_have_ids, number_all-Inverse,
}
use osdi_artifact.Pointer.Match.Pulls.{HaveIds, Pulled-rounds}

module _ (bs : BitSet32) where
  open bs use {Bits, empty, count, count-card, has_bit, has_bit-empty}

  -- Pointer c has an id below 32, and idToIndex leads from it to c.
  abbrev pub HasId : RawPointerData Bits → ℕ → Type 0
  HasId d c = (d.id_to_index (d.pointers c).id ≡ c) × ((d.pointers c).id < 32)

  count-Inverse :
      (total : ℕ) (cs ids : Bits) (d : RawPointerData Bits)
      → total ≤ 32
      → Inverse bs total cs ids d
      → count cs ≤ total
  count-Inverse total cs ids d small v = omega (
    arith,
    count-card cs,
    card-bounded (has_bit cs) total 32 v.below small,
    card-le (has_bit cs) total,
  )

  match_all-HasId :
      (last d : RawPointerData Bits)
      → d.pointer_count ≤ 32
      → HaveIds last.pointer_count last.pointers
      → (c : ℕ) → c < d.pointer_count
      → HasId (match_all bs last d) c
  unfolding match_all heapify
  match_all-HasId last d small ids c lt =
      let total = d.pointer_count in
      let none : Heap = record {
        elements = λ i. record { current = 0; last = 0; distance = 0 };
        size = 0;
      } in
      let gathered = collect d.pointers last.pointers last.pointer_count total 0 none in
      let start : Match Bits = record {
        heap = heapify gathered;
        matched_last = empty;
        matched_current = empty;
        used = empty;
        first = true;
        out = d;
      } in
      let m = rounds bs last.pointers (min total last.pointer_count) start in
      let v =
        Pulled-rounds bs total last.pointer_count (min total last.pointer_count) last.pointers start
          small ids
          (record {
            inverse = none_has_id bs total d;
            named = heapify-AllNamed total last.pointer_count gathered (
                collect-AllNamed total last.pointer_count d.pointers last.pointers total 0 none
                  (omega arith) (λ i h. absurd (omega (arith, h))));
            taken = λ n h. absurd (ground (arith, h, has_bit-empty n));
          }) in
      let le = count-Inverse total m.matched_current m.used m.out small v.inverse in
      let (w, full) =
        give_fresh-Inverse bs total (total - count m.matched_current) m small (omega (arith, le))
          v.inverse in
      all_have_ids bs total _ _ _ small w full c lt

  set_only-HasId : (d : RawPointerData Bits) (id : ℕ) → id < 32 → HasId (set_id bs 0 id d) 0
  unfolding set_id mark_id_bit
  set_only-HasId d id lt = ground arith

  -- With a packet before whose pointers have ids of their own below 32, and at most 32 pointers now:
  -- after assignPointerIds every pointer of the packet has an id below 32, from which idToIndex
  -- leads back to it, so that no two have the same.
  pub assign_pointer_ids-HasId :
      (last current : RawPointerData Bits)
      → current.pointer_count ≤ 32
      → HaveIds last.pointer_count last.pointers
      → (c : ℕ) → c < current.pointer_count
      → HasId (assign_pointer_ids bs last current) c
  unfolding assign_pointer_ids clear_id_bits
  assign_pointer_ids-HasId last current small ids c lt =
      elim (Bool-cases (current.pointer_count == 0)) [
        | inl none ↦ absurd (ground arith)
        | inr some ↦ elim (Bool-cases (last.pointer_count == 0)) [
          | inl fresh ↦
              rw (some, fresh)
                (number_all-Inverse bs current.pointer_count current.pointer_count empty
                  (clear_id_bits bs current) 0 small (omega arith)
                  (λ m. has_bit-empty m ∙ ground arith)
                  (none_has_id bs current.pointer_count (clear_id_bits bs current)) c lt)
          | inr known ↦
              elim (Bool-cases (
                current.pointer_count == 1
                && (last.pointer_count == 1
                    && same_tool (current.pointers 0).tool_type (last.pointers 0).tool_type))) [
                      | inl one ↦
                          rw (some, known, one)
                            (subst
                              (λ k.
                                HasId (set_id bs 0 (last.pointers 0).id (clear_id_bits bs current))
                                  k)
                              (ground (arith, one, lt))
                              (set_only-HasId (clear_id_bits bs current) (last.pointers 0).id
                                (ids.small 0 (ground (arith, known)))))
                      | inr many ↦
                          rw (some, known, many)
                            (match_all-HasId last (clear_id_bits bs current) small ids c lt)
                    ]
        ]
      ]
