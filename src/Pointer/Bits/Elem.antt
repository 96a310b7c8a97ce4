-- ===== src/Pointer/Bits/Elem.antt =====
-- Membership of a number in a list, as a test.
use osdi_artifact.Prelude.{ℕ, Bool, false, List, [], ◌∷◌, ◌==◌, ◌||◌}

abbrev pub elem : ℕ → List ℕ → Bool
elem n [] = false
elem n (m ∷ ms) = m == n || elem n ms
