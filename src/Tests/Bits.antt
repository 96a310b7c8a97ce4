-- ===== src/Tests/Bits.antt =====
-- A concrete BitSet32: a Boolean for each number below 32.
use osdi_artifact.Prelude.{
  refl, ◌≤◌, ℕ, zero, suc, ◌+◌, ◌<◌, Bool, true, false, ◌&&◌, List, [], ◌∷◌, ◌≡◌, arith, ap, ◌∙◌,
  if◌then◌else◌, ◌==◌, ltb, leb,
}
use osdi_artifact.Pointer.Bits.{BitSet32}
use osdi_artifact.Pointer.Bits.Elem.{elem}
use osdi_artifact.Pointer.Bits.Card.{card}

-- `count` numbers from `start` on.
abbrev pub range : ℕ → ℕ → List ℕ
range start zero = []
range start (suc count) = start ∷ range (start + 1) count

abbrev first_clear : (ℕ → Bool) → List ℕ → ℕ
first_clear b [] = 0
first_clear b (n ∷ ns) = if b n then first_clear b ns else n

abbrev pub all_set : (ℕ → Bool) → List ℕ → Bool
all_set b [] = true
all_set b (n ∷ ns) = b n && all_set b ns

abbrev pub set_bits : (ℕ → Bool) → List ℕ → List ℕ
set_bits b [] = []
set_bits b (n ∷ ns) = if b n then n ∷ set_bits b ns else set_bits b ns

pub elem-range : (n s c : ℕ) → elem n (range s c) ≡ (leb s n && ltb n (s + c))
elem-range n s zero = ground arith
elem-range n s (suc c) = ground (arith, elem-range n (s + 1) c)

elem-set_bits : (b : ℕ → Bool) (n : ℕ) (ns : List ℕ) → elem n (set_bits b ns) ≡ (elem n ns && b n)
elem-set_bits b n [] = ground arith
elem-set_bits b n (m ∷ ns) = ground (arith, elem-set_bits b n ns)

first_clear-all_set :
    (b : ℕ → Bool) (ns : List ℕ)
    → all_set b ns ≡ false
    → (elem (first_clear b ns) ns ≡ true) × (b (first_clear b ns) ≡ false)
first_clear-all_set b [] h = absurd (ground arith)
first_clear-all_set b (n ∷ ns) h = ground (arith, first_clear-all_set b ns)

abbrev pub test : (ℕ → Bool) → ℕ → Bool
test b n = ltb n 32 && b n

pub first_clear-test :
    (b : ℕ → Bool)
    → all_set b (range 0 32) ≡ false
    → (first_clear b (range 0 32) < 32) × (test b (first_clear b (range 0 32)) ≡ false)
first_clear-test b h =
    let k = first_clear b (range 0 32) in
    let (member, clear) = first_clear-all_set b (range 0 32) h in
    let bound = elem-range k 0 32 in ground (arith, member, clear, bound)

from_zero : (n : ℕ) → (leb 0 n && ltb n (0 + 32)) ≡ ltb n 32
from_zero n = ground arith

pub elem-marked32 : (b : ℕ → Bool) (n : ℕ) → elem n (set_bits b (range 0 32)) ≡ test b n
elem-marked32 b n =
    elem-set_bits b n (range 0 32) ∙ ap (λ t. t && b n) (elem-range n 0 32 ∙ from_zero n)

pub test-set :
    (b : ℕ → Bool) (n m : ℕ)
    → n < 32
    → test (λ k. if n == k then true else b k) m ≡ (if n == m then true else test b m)
test-set b n m h = ground arith

pub test-lt : (b : ℕ → Bool) (n : ℕ) → test b n ≡ true → n < 32
test-lt b n h = ground arith

test-true : (b : ℕ → Bool) (n : ℕ) → n < 32 → b n ≡ true → test b n ≡ true
test-true b n lt h = ground arith

pub in_range : (n : ℕ) → n < 32 → (leb 0 n && ltb n (0 + 32)) ≡ true
in_range n lt = ground arith

pub test-empty : (n : ℕ) → test (λ k. false) n ≡ false
test-empty n = ground arith

first_clear-least :
    (b : ℕ → Bool) (s c m : ℕ)
    → all_set b (range s c) ≡ false
    → s ≤ m
    → m < first_clear b (range s c)
    → b m ≡ true
first_clear-least b s zero m h low lt = absurd (ground arith)
first_clear-least b s (suc c) m h low lt = ground (arith, first_clear-least b (s + 1) c m)

pub all_set-elem :
    (b : ℕ → Bool) (n : ℕ) (ns : List ℕ) → all_set b ns ≡ true → elem n ns ≡ true → b n ≡ true
all_set-elem b n [] h e = cc
all_set-elem b n (m ∷ ns) h e = ground (arith, all_set-elem b n ns)

pub test-below_first :
    (b : ℕ → Bool) (n : ℕ)
    → all_set b (range 0 32) ≡ false
    → n < first_clear b (range 0 32)
    → test b n ≡ true
test-below_first b n h lt =
    let bound = (first_clear-test b h).0 in
    let hit = first_clear-least b 0 32 n h (omega arith) lt in
    test-true b n (omega (arith, bound, lt)) hit

pub test-is_full : (b : ℕ → Bool) (n : ℕ) → all_set b (range 0 32) ≡ true → n < 32 → test b n ≡ true
test-is_full b n h lt =
    test-true b n lt (all_set-elem b n (range 0 32) h (elem-range n 0 32 ∙ in_range n lt))

abbrev pub bits32 : BitSet32
bits32 = record {
  Bits = ℕ → Bool;
  empty = λ n. false;
  has_bit = test;
  mark_bit = λ b n m. if n == m then true else b m;
  first_unmarked = λ b. first_clear b (range 0 32);
  is_full = λ b. all_set b (range 0 32);
  marked = λ b. set_bits b (range 0 32);
  has_bit-empty = test-empty;
  has_bit-mark_bit = test-set;
  has_bit-lt = test-lt;
  has_bit-first_unmarked = first_clear-test;
  elem-marked = elem-marked32;
  count = λ b. card (test b) 32;
  has_bit-below_first = test-below_first;
  has_bit-is_full = test-is_full;
  count-card = λ b. refl;
}
