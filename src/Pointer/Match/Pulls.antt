-- ===== src/Pointer/Match/Pulls.antt =====
-- The loop of assignPointerIds that pulls matches out of the heap gives each id once.
use osdi_artifact.Prelude.{
  ℕ, zero, suc, ◌+◌, ◌<◌, ◌≤◌, Bool, true, false, if◌then◌else◌, ◌==◌, ◌≡◌, refl, ap, arith,
  Bool-cases, inl, inr,
}
use osdi_artifact.Pointer.Bits.{BitSet32}
use osdi_artifact.Pointer.Raw.{Pointer}
use osdi_artifact.Pointer.Heap.{Element, pop_root}
use osdi_artifact.Pointer.Heap.Range.{IsNamed, AllNamed, pop_root-AllNamed}
use osdi_artifact.Pointer.Match.{Match, take_root, match_root, pull, rounds}
use osdi_artifact.Pointer.Match.Inverse.{Inverse, set_id-Inverse}

-- The pointers of the packet before: each has an id of its own.
pub record HaveIds (lasts : ℕ) (last : ℕ → Pointer) : Type 0 where
  pub few : lasts ≤ 32
  pub small : (l : ℕ) → l < lasts → (last l).id < 32
  pub distinct : (l k : ℕ) → l < lasts → k < lasts → (last l).id ≡ (last k).id → l ≡ k

module _ (bs : BitSet32) where
  open bs use {Bits, has_bit, mark_bit, has_bit-mark_bit}

  -- Between two rounds: the elements of the heap, with the consumed root, name pointers, and an id
  -- in use is that of a last pointer that was matched.
  pub record Pulled (total lasts : ℕ) (last : ℕ → Pointer) (m : Match Bits) : Type 0 where
    pub inverse : Inverse bs total m.matched_current m.used m.out
    pub named :
        AllNamed total lasts (if m.first then m.heap.size else m.heap.size + 1) m.heap.elements
    pub taken :
        (n : ℕ)
        → has_bit m.used n ≡ true
        → (l : ℕ) × (l < lasts) × (has_bit m.matched_last l ≡ true) × ((last l).id ≡ n)

  named-take_root :
      (total lasts n : ℕ) (m : Match Bits) (first : Bool)
      → m.first ≡ first
      → m.heap.size ≡ suc n
      → AllNamed total lasts (if first then m.heap.size else m.heap.size + 1) m.heap.elements
      → (AllNamed total lasts (n + 1) (take_root bs m).heap.elements)
        × ((take_root bs m).heap.size ≡ n)
  unfolding take_root pop_root
  named-take_root total lasts n m true f h a =
      rw (f, take_root) (λ i lt. a i (omega (arith, lt, h)), omega (arith, h))
  named-take_root total lasts n m false f h a =
      rw (f, take_root)
        (λ i lt. pop_root-AllNamed total lasts m.heap a i (omega (arith, lt, h)), omega (arith, h))

  Pulled-take_root :
      (total lasts n : ℕ) (last : ℕ → Pointer) (m : Match Bits)
      → m.heap.size ≡ suc n
      → Pulled total lasts last m
      → Pulled total lasts last (take_root bs m)
        × IsNamed total lasts ((take_root bs m).heap.elements 0)
        × ((take_root bs m).heap.size ≡ n)
  unfolding take_root
  Pulled-take_root total lasts n last m h v =
      let (a, size) = named-take_root total lasts n m m.first refl h v.named in
      (record { inverse = v.inverse; named = rw size a; taken = v.taken }, a 0 (omega arith), size)

  Pulled-match_root :
      (total lasts : ℕ) (last : ℕ → Pointer) (e : Element) (m : Match Bits)
      → total ≤ 32
      → HaveIds lasts last
      → Pulled total lasts last m
      → IsNamed total lasts e
      → has_bit m.matched_current e.current ≡ false
      → has_bit m.matched_last e.last ≡ false
      → Pulled total lasts last (match_root bs last e m)
  Pulled-match_root total lasts last e m small ids v (hc, hl) fc fl =
      let n = (last e.last).id in
      let hn = ids.small e.last hl in
      let hl32 : e.last < 32 = omega (arith, hl, ids.few) in
      let fn : has_bit m.used n ≡ false = elim (Bool-cases (has_bit m.used n)) [
        | inl used ↦
            let (l, lt, matched, same) = v.taken n used in
            let one = ids.distinct l e.last lt hl same in
            absurd (ground (arith, matched, fl, ap (has_bit m.matched_last) one))
        | inr free ↦ free
      ] in
      record {
        inverse =
            set_id-Inverse bs total m.matched_current m.used m.out e.current n v.inverse small hc hn
              fc fn;
        named = v.named;
        taken = λ k h. elim (Bool-cases (n == k)) [
          | inl same ↦ (
            e.last,
            hl,
            ground (arith, has_bit-mark_bit m.matched_last e.last e.last hl32),
            ground arith,
          )
          | inr other ↦
              let (l, lt, matched, id) =
                v.taken k (ground (arith, h, other, has_bit-mark_bit m.used n k hn)) in
              (l, lt, ground (arith, matched, has_bit-mark_bit m.matched_last e.last l hl32), id)
        ];
      }

  Pulled-pull :
      (total lasts n : ℕ) (last : ℕ → Pointer) (m : Match Bits)
      → total ≤ 32
      → HaveIds lasts last
      → m.heap.size ≡ n
      → Pulled total lasts last m
      → Pulled total lasts last (pull bs last n m)
  unfolding pull take_root
  Pulled-pull total lasts zero last m small ids h v = v
  Pulled-pull total lasts (suc n) last m small ids h v =
      let m1 = take_root bs m in
      let e = m1.heap.elements 0 in
      let (v1, named, size) = Pulled-take_root total lasts n last m h v in
      elim (Bool-cases (has_bit m.matched_current e.current)) [
        | inl matched ↦ rw (matched, pull) (Pulled-pull total lasts n last m1 small ids size v1)
        | inr free ↦ elim (Bool-cases (has_bit m.matched_last e.last)) [
          | inl matched ↦
              rw (free, matched, pull) (Pulled-pull total lasts n last m1 small ids size v1)
          | inr free_last ↦
              rw (free, free_last, pull)
                (Pulled-match_root total lasts last e m1 small ids v1 named free free_last)
        ]
      ]

  pub Pulled-rounds :
      (total lasts n : ℕ) (last : ℕ → Pointer) (m : Match Bits)
      → total ≤ 32
      → HaveIds lasts last
      → Pulled total lasts last m
      → Pulled total lasts last (rounds bs last n m)
  unfolding rounds
  Pulled-rounds total lasts zero last m small ids v = v
  Pulled-rounds total lasts (suc n) last m small ids v =
      Pulled-rounds total lasts n last _ small ids
        (Pulled-pull total lasts m.heap.size last m small ids refl v)
