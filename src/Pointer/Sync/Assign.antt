-- ===== src/Pointer/Sync/Assign.antt =====
-- How MultiTouchInputMapper::syncTouch binds tracking ids to pointer ids.
use osdi_artifact.Prelude.{
  update, ℕ, ℤ, is_neg, eq_ℤ, eq_ℤ_iff, true, false, List, [], ◌∷◌, Option, none, some, ◌≡◌, ◌≢◌,
  refl, ◌∙◌, ◌⊎◌, inl, inr, arith, Option-cases, Bool-cases, if◌then◌else◌,
}
use osdi_artifact.Pointer.Bits.{BitSet32}
use osdi_artifact.Pointer.Bits.Elem.{elem}
use osdi_artifact.Pointer.Sync.{Ids, find_id, assign_id}

-- The result of the search is a marked id that carries the tracking id.
find_id-some :
    (tr : ℕ → ℤ) (tid : ℤ) (ns : List ℕ) (found : Option ℕ) (n : ℕ)
    → find_id tr tid ns found ≡ some n
    → (found ≡ some n) ⊎ ((elem n ns ≡ true) × (tr n ≡ tid))
unfolding find_id
find_id-some tr tid [] found n h = inl h
find_id-some tr tid (m ∷ ns) found n h = ground (
  arith,
  eq_ℤ_iff (tr m) tid,
  find_id-some tr tid ns (if eq_ℤ (tr m) tid then some m else found) n h,
)

-- A search that starts with a find, or meets an id that carries the tracking id, finds one.
find_id-none :
    (tr : ℕ → ℤ) (tid : ℤ) (ns : List ℕ) (found : Option ℕ)
    → find_id tr tid ns found ≡ none
    → (found ≡ none) × ((n : ℕ) → elem n ns ≡ true → tr n ≢ tid)
unfolding find_id
find_id-none tr tid [] found h = (h, λ n e. cc)
find_id-none tr tid (m ∷ ns) found h =
    let rest = find_id-none tr tid ns (if eq_ℤ (tr m) tid then some m else found) h in
    (ground (arith, rest.0), λ n e t. ground (arith, rest.0, rest.1 n, eq_ℤ_iff (tr m) tid))

module _ (bs : BitSet32) where
  open bs use {
    Bits, has_bit, mark_bit, has_bit-mark_bit, has_bit-first_unmarked, first_unmarked, marked,
    elem-marked, is_full,
  }

  -- No two ids in use carry the same tracking id.
  abbrev pub IsInjective : Ids Bits → Type 0
  IsInjective m =
      (n k : ℕ)
      → has_bit m.bits n ≡ true
      → has_bit m.bits k ≡ true
      → m.tracking n ≡ m.tracking k
      → n ≡ k

  -- The ids in use stay in use, with their tracking ids.
  abbrev pub Extends : Ids Bits → Ids Bits → Type 0
  Extends m m' =
      (n : ℕ)
      → has_bit m.bits n ≡ true
      → (has_bit m'.bits n ≡ true) × (m'.tracking n ≡ m.tracking n)

  abbrev pub Bound : Ids Bits → ℕ → ℤ → Type 0
  Bound m n tid = (has_bit m.bits n ≡ true) × (m.tracking n ≡ tid)

  assign_id-new :
      (tid : ℤ) (m : Ids Bits)
      → find_id m.tracking tid (marked m.bits) none ≡ none
      → is_full m.bits ≡ false
      → IsInjective m
      → let m' : Ids Bits = record {
        bits = mark_bit m.bits (first_unmarked m.bits);
        tracking = update m.tracking (first_unmarked m.bits) tid;
      } in
        IsInjective m' × Extends m m' × Bound m' (first_unmarked m.bits) tid
  assign_id-new tid m f u inj =
      let (lt, free) = has_bit-first_unmarked m.bits u in
      let mark = λ (k : ℕ). has_bit-mark_bit m.bits (first_unmarked m.bits) k lt in
      let miss = λ (k : ℕ) (e : has_bit m.bits k ≡ true).
        (find_id-none m.tracking tid (marked m.bits) none f).1 k (elem-marked m.bits k ∙ e) in
      (
        λ n k hn hk e. ground (arith, mark n, mark k, inj n k, miss n, miss k),
        λ n hn. ground (arith, mark n),
        ground (arith, mark (first_unmarked m.bits)),
      )

  -- An id that is given is bound to the tracking id; the ids in use keep theirs.
  abbrev pub Assigned : Ids Bits → ℤ → Option ℕ × Ids Bits → Type 0
  Assigned m tid (none, m') = IsInjective m' × Extends m m'
  Assigned m tid (some n, m') = IsInjective m' × Extends m m' × Bound m' n tid

  pub assign_id-old :
      (tid : ℤ) (m : Ids Bits) (k : ℕ)
      → find_id m.tracking tid (marked m.bits) none ≡ some k
      → Bound m k tid
  assign_id-old tid m k f =
      ground (arith, find_id-some m.tracking tid (marked m.bits) none k f, elem-marked m.bits k)

  pub assign_id-Assigned :
      (tid : ℤ) (m : Ids Bits) → IsInjective m → Assigned m tid (assign_id bs tid m)
  unfolding assign_id
  assign_id-Assigned tid m inj = elim (Bool-cases (is_neg tid)) [
    | inl neg ↦ rw neg (inj, λ n h. (h, refl))
    | inr fits ↦ elim (Option-cases (find_id m.tracking tid (marked m.bits) none)) [
      | inl f ↦ elim (Bool-cases (is_full m.bits)) [
        | inl full ↦ rw (fits, f, full) (inj, λ n h. (h, refl))
        | inr room ↦ rw (fits, f, room) (assign_id-new tid m f room inj)
      ]
      | inr (k, f) ↦ rw (fits, f) (inj, λ n h. (h, refl), assign_id-old tid m k f)
    ]
  ]
