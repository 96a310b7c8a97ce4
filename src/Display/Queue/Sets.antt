-- ===== src/Display/Queue/Sets.antt =====
-- The std::set<int> and std::list<int> of slots that BufferQueueProducer.cpp changes, as lists.
pub use osdi_artifact.Prelude.{count}
use osdi_artifact.Prelude.{
  ℕ, ◌+◌, ◌-◌, List, [], ◌∷◌, ◌++◌, ◌≡◌, refl, arith, if◌then◌else◌, ◌==◌, ltb,
}

-- std::set::insert keeps the order, and does nothing where the slot is there.
unfoldable pub insert : ℕ → List ℕ → List ℕ
insert n [] = n ∷ []
insert n (m ∷ ms) =
    let rest = insert n ms in if n == m then m ∷ ms else if ltb n m then n ∷ m ∷ ms else m ∷ rest

-- std::set::erase of a key.
unfoldable pub erase : ℕ → List ℕ → List ℕ
erase n [] = []
erase n (m ∷ ms) = let rest = erase n ms in if n == m then ms else m ∷ rest

-- std::list::remove takes every element that is equal.
unfoldable pub remove : ℕ → List ℕ → List ℕ
remove n [] = []
remove n (m ∷ ms) = let rest = remove n ms in if n == m then rest else m ∷ rest

abbrev pub one_if : ℕ → ℕ → ℕ
one_if n k = if n == k then 1 else 0

pub count-insert :
    (k n : ℕ) (s : List ℕ) → count n s ≡ 0 → count k (insert n s) ≡ one_if n k + count k s
unfolding insert
count-insert k n [] h = refl
count-insert k n (m ∷ ms) h = ground (arith, count-insert k n ms)

pub count-erase : (k n : ℕ) (s : List ℕ) → count k (erase n s) ≡ count k s - one_if n k
unfolding erase
count-erase k n [] = ground arith
count-erase k n (m ∷ ms) = ground (arith, count-erase k n ms)

pub count-remove : (k n : ℕ) (s : List ℕ) → count k (remove n s) ≡ (if n == k then 0 else count k s)
unfolding remove
count-remove k n [] = ground arith
count-remove k n (m ∷ ms) = ground (arith, count-remove k n ms)

pub count-push_back : (k n : ℕ) (s : List ℕ) → count k (s ++ n ∷ []) ≡ one_if n k + count k s
count-push_back k n [] = refl
count-push_back k n (m ∷ ms) = ground (arith, count-push_back k n ms)
