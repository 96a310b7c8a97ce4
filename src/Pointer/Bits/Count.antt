-- ===== src/Pointer/Bits/Count.antt =====
-- Counting the numbers of a BitSet32.
use osdi_artifact.Prelude.{
  ℕ, suc, ◌<◌, ◌≤◌, false, ◌≡◌, sym, ap, ◌∙◌, arith, Bool-cases, inl, inr, ltb,
}
use osdi_artifact.Pointer.Bits.{BitSet32}
use osdi_artifact.Pointer.Bits.Card.{card-mark, card-mark_le, card-all, card-bounded, card-grows}

module _ (bs : BitSet32) where
  open bs use {
    Bits, empty, has_bit, mark_bit, first_unmarked, is_full, count, has_bit-mark_bit, has_bit-empty,
    has_bit-below_first, has_bit-is_full, count-card,
  }

  -- A set with fewer than 32 numbers has room.
  pub room : (b : Bits) → count b < 32 → is_full b ≡ false
  room b h = elim (Bool-cases (is_full b)) [
    | inl full ↦ absurd (
        omega
          (arith, h, count-card b, card-all (has_bit b) 32 (λ m lt. has_bit-is_full b m full lt)))
    | inr free ↦ free
  ]

  pub count-mark_bit :
      (b : Bits) (n : ℕ) → n < 32 → has_bit b n ≡ false → count (mark_bit b n) ≡ suc (count b)
  count-mark_bit b n lt free =
      count-card (mark_bit b n)
      ∙ (card-mark (has_bit b) (has_bit (mark_bit b n)) n 32 (λ m. has_bit-mark_bit b n m lt) free
            lt
          ∙ ap suc (sym (count-card b)))

  -- The first number that is not there lies below `k` if fewer than `k` are there.
  pub first_unmarked-lt : (b : Bits) (k : ℕ) → k ≤ 32 → count b < k → first_unmarked b < k
  first_unmarked-lt b k le h = elim (Bool-cases (ltb (first_unmarked b) k)) [
    | inl below ↦ ground arith
    | inr above ↦
        let free = room b (omega (arith, h, le)) in
        let all =
          card-all (has_bit b) k
            (λ m lt. has_bit-below_first b m free (ground (arith, above, lt))) in
        absurd (omega (arith, h, count-card b, all, card-grows (has_bit b) k 32 le))
  ]

  pub count-mark_bit_le : (b : Bits) (n : ℕ) → n < 32 → count (mark_bit b n) ≤ suc (count b)
  count-mark_bit_le b n lt = omega (
    arith,
    count-card (mark_bit b n),
    count-card b,
    card-mark_le (has_bit b) (has_bit (mark_bit b n)) n 32 (λ m. has_bit-mark_bit b n m lt),
  )

  pub count-empty : count empty ≡ 0
  count-empty =
      count-card empty
      ∙ card-bounded (has_bit empty) 0 32 (λ m h. absurd (ground (arith, h, has_bit-empty m)))
          (omega arith)
