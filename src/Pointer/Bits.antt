-- ===== src/Pointer/Bits.antt =====
-- BitSet32 of utils/BitSet.h, which InputReader.cpp uses: a set of numbers below 32, with its
-- documented behaviour. `marked` lists the bits that a loop of clearFirstMarkedBit visits.
pub mod Elem
pub mod Card
pub mod Count
use osdi_artifact.Prelude.{ℕ, ◌<◌, Bool, true, false, List, ◌≡◌, if◌then◌else◌, ◌==◌}
use Elem.{elem}
use Card.{card}

pub record BitSet32 : Type 1 where
  pub Bits : Type 0
  pub empty : Bits
  pub has_bit : Bits → ℕ → Bool
  pub mark_bit : Bits → ℕ → Bits
  pub first_unmarked : Bits → ℕ
  pub is_full : Bits → Bool
  pub marked : Bits → List ℕ
  pub count : Bits → ℕ
  pub has_bit-empty : (n : ℕ) → has_bit empty n ≡ false
  pub has_bit-mark_bit :
      (b : Bits) (n m : ℕ)
      → n < 32
      → has_bit (mark_bit b n) m ≡ (if n == m then true else has_bit b m)
  pub has_bit-lt : (b : Bits) (n : ℕ) → has_bit b n ≡ true → n < 32
  pub has_bit-first_unmarked :
      (b : Bits)
      → is_full b ≡ false
      → (first_unmarked b < 32) × (has_bit b (first_unmarked b) ≡ false)
  pub elem-marked : (b : Bits) (n : ℕ) → elem n (marked b) ≡ has_bit b n
  pub has_bit-below_first :
      (b : Bits) (n : ℕ) → is_full b ≡ false → n < first_unmarked b → has_bit b n ≡ true
  pub has_bit-is_full : (b : Bits) (n : ℕ) → is_full b ≡ true → n < 32 → has_bit b n ≡ true
  pub count-card : (b : Bits) → count b ≡ card (has_bit b) 32
