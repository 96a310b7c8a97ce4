-- ===== src/Pointer/Bits/Card.antt =====
-- How many numbers below a bound are in a set.
use osdi_artifact.Prelude.{
  ℕ, zero, suc, ◌<◌, ◌≤◌, ◌==◌, Bool, true, false, if◌then◌else◌, ◌≡◌, refl, arith, ap, Bool-cases,
  inl, inr,
}

abbrev pub card : (ℕ → Bool) → ℕ → ℕ
card f zero = 0
card f (suc n) = if f n then suc (card f n) else card f n

card-same : (f g : ℕ → Bool) (k : ℕ) → ((m : ℕ) → m < k → g m ≡ f m) → card g k ≡ card f k
card-same f g zero h = refl
card-same f g (suc k) h =
    ground (arith, card-same f g k (λ m lt. h m (omega (arith, lt))), h k (omega arith))

-- One more member.
pub card-mark :
    (f g : ℕ → Bool) (n k : ℕ)
    → ((m : ℕ) → g m ≡ (if n == m then true else f m))
    → f n ≡ false
    → n < k
    → card g k ≡ suc (card f k)
card-mark f g n zero h free lt = absurd (omega arith)
card-mark f g n (suc k) h free lt = elim (Bool-cases (n == k)) [
  | inl top ↦ ground (arith, h k, card-same f g k (λ m l. ground (arith, h m, top, l)))
  | inr below ↦ ground (arith, h k, card-mark f g n k h free)
]

pub card-mark_le :
    (f g : ℕ → Bool) (n k : ℕ)
    → ((m : ℕ) → g m ≡ (if n == m then true else f m))
    → card g k ≤ suc (card f k)
card-mark_le f g n zero h = omega arith
card-mark_le f g n (suc k) h = elim (Bool-cases (n == k)) [
  | inl top ↦ ground (arith, h k, card-same f g k (λ m l. ground (arith, h m, top, l)))
  | inr below ↦ ground (arith, h k, card-mark_le f g n k h)
]

pub card-le : (f : ℕ → Bool) (k : ℕ) → card f k ≤ k
card-le f zero = omega arith
card-le f (suc k) = ground (arith, card-le f k)

-- A set that is as large as the bound holds every number below it.
pub card-full : (f : ℕ → Bool) (k m : ℕ) → card f k ≡ k → m < k → f m ≡ true
card-full f zero m h lt = absurd (omega arith)
card-full f (suc k) m h lt = ground (arith, card-le f k, card-full f k m)

pub card-all : (f : ℕ → Bool) (k : ℕ) → ((m : ℕ) → m < k → f m ≡ true) → card f k ≡ k
card-all f zero h = refl
card-all f (suc k) h =
    ground (arith, card-all f k (λ m lt. h m (omega (arith, lt))), h k (omega arith))

-- Members lie below `c`: a larger bound counts no more.
pub card-bounded :
    (f : ℕ → Bool) (c k : ℕ) → ((m : ℕ) → f m ≡ true → m < c) → c ≤ k → card f k ≡ card f c
card-bounded f c zero h le = ap (card f) {x = 0} {y = c} (omega (arith, le))
card-bounded f c (suc k) h le = elim (Bool-cases (c == suc k)) [
  | inl top ↦ ap (card f) {x = suc k} {y = c} (ground arith)
  | inr below ↦ ground (arith, card-bounded f c k h, h k)
]

pub card-grows : (f : ℕ → Bool) (c k : ℕ) → c ≤ k → card f c ≤ card f k
card-grows f c zero le = ground (arith, ap (card f) {x = c} {y = 0})
card-grows f c (suc k) le = elim (Bool-cases (c == suc k)) [
  | inl top ↦ ground (arith, ap (card f) {x = c} {y = suc k})
  | inr below ↦ ground (arith, card-grows f c k)
]
