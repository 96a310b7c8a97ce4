-- ===== src/Mapper/Touch/Bits.antt =====
-- The operations of BitSet32 of utils/BitSet.h that TouchInputMapper uses beside those of
-- Pointer.Bits, with their documented behaviour.
use osdi_artifact.Prelude.{count, ℕ, ◌≤◌, ◌==◌, Bool, true, false, not, ◌&&◌, ◌≡◌, if◌then◌else◌}
use osdi_artifact.Pointer.Bits.{BitSet32}

-- `without` is a & ~b and `both` is a & b on the values; `bits_of` is the constructor from a value, and
-- `value_for_bit` is valueForBit.
pub record BitOps (bs : BitSet32) : Type 0 where
  pub clear_bit : bs.Bits → ℕ → bs.Bits
  pub without : bs.Bits → bs.Bits → bs.Bits
  pub both : bs.Bits → bs.Bits → bs.Bits
  pub eq_bits : bs.Bits → bs.Bits → Bool
  pub is_empty : bs.Bits → Bool
  pub bits_of : ℕ → bs.Bits
  pub value_for_bit : ℕ → ℕ
  pub has_bit-clear_bit :
      (b : bs.Bits) (n m : ℕ)
      → bs.has_bit (clear_bit b n) m ≡ (if n == m then false else bs.has_bit b m)
  pub has_bit-without :
      (a b : bs.Bits) (n : ℕ)
      → bs.has_bit (without a b) n ≡ (bs.has_bit a n && not (bs.has_bit b n))
  pub has_bit-both :
      (a b : bs.Bits) (n : ℕ) → bs.has_bit (both a b) n ≡ (bs.has_bit a n && bs.has_bit b n)
  pub has_bit-eq_bits :
      (a b : bs.Bits) (n : ℕ) → eq_bits a b ≡ true → bs.has_bit a n ≡ bs.has_bit b n
  pub has_bit-is_empty : (b : bs.Bits) (n : ℕ) → is_empty b ≡ true → bs.has_bit b n ≡ false
  pub count-marked : (b : bs.Bits) (n : ℕ) → count n (bs.marked b) ≤ 1
