-- ===== src/Tests/Touch.antt =====
-- The theorems on TouchInputMapper at concrete inputs, with pointers that are numbers.
use osdi_artifact.Prelude.{
  ℕ, zero, suc, ◌+◌, ◌-◌, ◌*◌, ◌/◌, ◌%◌, ◌^◌, ◌≤◌, ◌==◌, count, pos, Bool, true, false, not, ◌&&◌,
  List, [], ◌∷◌, ◌≡◌, refl, arith, ltb, leb, if◌then◌else◌, ◌∙◌, Bool-cases, inl, inr,
}
use osdi_artifact.Mapper.Touch.Bits.{BitOps}
use osdi_artifact.Mapper.Touch.State.{Parts, Cooked, Touch, Cycle}
use osdi_artifact.Mapper.Touch.Cycle.{cook_and_dispatch}
use osdi_artifact.Mapper.Touch.Stream.{Agrees, Stream}
use osdi_artifact.Mapper.Touch.Cycles.{touching}
use osdi_artifact.Mapper.Touch.Runs.{Step, cycle, aborts, run_all, heard, AllCooked, run_all-Stream}
use osdi_artifact.Mapper.Touch.Hovers.{HoverStream, is_hovering, cook_and_dispatch-Hovers}
use osdi_artifact.Tests.Bits.{
  bits32, test, range, all_set, set_bits, all_set-elem, elem-range, in_range,
}

abbrev same : Bool → Bool → Bool
same a b = if a then b else not b

test-same :
    (a b : ℕ → Bool) (n : ℕ)
    → all_set (λ k. same (a k) (b k)) (range 0 32) ≡ true
    → test a n ≡ test b n
test-same a b n h = elim (Bool-cases (ltb n 32)) [
  | inl low ↦ ground (
    arith,
    low,
    all_set-elem (λ k. same (a k) (b k)) n (range 0 32) h
        (elem-range n 0 32 ∙ in_range n (ground (arith, low))),
  )
  | inr high ↦ ground (arith, high)
]

test-no_bit :
    (b : ℕ → Bool) (n : ℕ) → all_set (λ k. not (b k)) (range 0 32) ≡ true → test b n ≡ false
test-no_bit b n h = elim (Bool-cases (ltb n 32)) [
  | inl low ↦ ground (
    arith,
    low,
    all_set-elem (λ k. not (b k)) n (range 0 32) h
        (elem-range n 0 32 ∙ in_range n (ground (arith, low))),
  )
  | inr high ↦ ground (arith, high)
]

count-set_bits : (b : ℕ → Bool) (n : ℕ) (ns : List ℕ) → count n (set_bits b ns) ≤ count n ns
count-set_bits b n [] = omega arith
count-set_bits b n (m ∷ ms) = ground (arith, count-set_bits b n ms)

count-range : (n s c : ℕ) → count n (range s c) ≡ (if leb s n && ltb n (s + c) then 1 else 0)
count-range n s zero = ground arith
count-range n s (suc c) = ground (arith, count-range n (s + 1) c)

count-range_le : (n s c : ℕ) → count n (range s c) ≤ 1
count-range_le n s c = ground (arith, count-range n s c)

test-clear_bit :
    (b : ℕ → Bool) (n m : ℕ)
    → test (λ k. if n == k then false else b k) m ≡ (if n == m then false else test b m)
test-clear_bit b n m = ground arith

test-without :
    (a b : ℕ → Bool) (n : ℕ) → test (λ k. a k && not (b k)) n ≡ (test a n && not (test b n))
test-without a b n = ground arith

test-both : (a b : ℕ → Bool) (n : ℕ) → test (λ k. a k && b k) n ≡ (test a n && test b n)
test-both a b n = ground arith

le_trans : (a b c : ℕ) → a ≤ b → b ≤ c → a ≤ c
le_trans a b c h k = omega arith

count-marked32 : (b : ℕ → Bool) (n : ℕ) → count n (set_bits b (range 0 32)) ≤ 1
count-marked32 b n = le_trans _ _ 1 (count-set_bits b n (range 0 32)) (count-range_le n 0 32)

abbrev ops32 : BitOps bits32
ops32 = record {
  clear_bit = λ b n m. if n == m then false else b m;
  without = λ a b n. a n && not (b n);
  both = λ a b n. a n && b n;
  eq_bits = λ a b. all_set (λ k. same (a k) (b k)) (range 0 32);
  is_empty = λ b. all_set (λ k. not (b k)) (range 0 32);
  bits_of = λ v n. v / 2 ^ (31 - n) % 2 == 1;
  value_for_bit = λ n. 2 ^ (31 - n);
  has_bit-clear_bit = test-clear_bit;
  has_bit-without = test-without;
  has_bit-both = test-both;
  has_bit-eq_bits = test-same;
  has_bit-is_empty = test-no_bit;
  count-marked = count-marked32;
}

-- A pointer's properties are its id, and its coordinates one number.
abbrev parts : Parts
parts = record {
  bits = bits32;
  ops = ops32;
  Properties = ℕ;
  Coords = ℕ;
  id_of = λ a. a;
  eq_properties = λ a b. a == b;
  eq_coords = λ a b. a == b;
}

-- Pointers below `n` touch, and those below `h` hover; the last one comes first.
abbrev cooked : ℕ → ℕ → Cooked parts
cooked n h = record {
  device_timestamp = 7;
  properties = λ i. n + h - 1 - i;
  coords = λ i. 10 * i + n;
  id_to_index = λ id. n + h - 1 - id;
  touching_id_bits = λ k. ltb k n;
  hovering_id_bits = λ k. ltb k h;
  pointer_count = n + h;
  button_state = 0;
}

abbrev resting : Touch parts
resting = record {
  current = cooked 0 0;
  last = cooked 0 0;
  raw_button_state = 0;
  down_time = pos 0;
  sent_hover_enter = false;
  current_motion_aborted = false;
}

abbrev now : Cycle
now = record { when = pos 100; policy_flags = 0; meta_state = 0 }

-- Two pointers go down, one goes up, the motion is aborted and ends, and one goes down again.
abbrev steps : List (Step parts)
steps =
    cycle now (cooked 2 0) 0
    ∷ cycle now (cooked 1 0) 0
    ∷ aborts now
    ∷ cycle now (cooked 1 0) 0
    ∷ cycle now (cooked 0 0) 0
    ∷ cycle now (cooked 1 0) 0
    ∷ []

cooked-Agrees : (n h : ℕ) → Agrees parts (cooked n h) (touching parts (cooked n h))
cooked-Agrees n h k t = ground (arith, t)

steps-AllCooked : AllCooked parts steps
steps-AllCooked = (
  ((λ h. absurd (ground (arith, h))), cooked-Agrees 2 0),
  (
    ((λ h. absurd (ground (arith, h))), cooked-Agrees 1 0),
    (
      tt,
      (
        ((λ h. absurd (ground (arith, h))), cooked-Agrees 1 0),
        (
          ((λ h k. ground arith), cooked-Agrees 0 0),
          (((λ h. absurd (ground (arith, h))), cooked-Agrees 1 0), tt),
        ),
      ),
    ),
  ),
)

run_all-Stream_example :
    Stream parts
      (heard parts resting)
      (run_all parts steps resting).0
      (heard parts (run_all parts steps resting).1)
run_all-Stream_example =
    run_all-Stream parts steps resting steps-AllCooked (refl, cooked-Agrees 0 0)

cook_and_dispatch-Hovers_example :
    let r = cook_and_dispatch parts now (cooked 0 1) 0 resting in
    HoverStream parts false r.0 r.1.sent_hover_enter
    × (false ≡ false → r.1.sent_hover_enter ≡ is_hovering parts (cooked 0 1))
cook_and_dispatch-Hovers_example = cook_and_dispatch-Hovers parts now (cooked 0 1) 0 resting
