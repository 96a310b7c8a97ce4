-- ===== src/Pointer/Heap/Range.antt =====
-- The elements of the heap of distances name pointers that are there, and a sift down ends.
use osdi_artifact.Prelude.{
  ℕ, zero, suc, ◌+◌, ◌*◌, ◌/◌, ◌<◌, ◌≤◌, Bool, true, false, if◌then◌else◌, leb, update, ◌≡◌, refl,
  arith, Bool-cases, inl, inr,
}
use osdi_artifact.Pointer.Raw.{Pointer}
use osdi_artifact.Pointer.Heap.{
  Element, Heap, push, collect_last, collect, swap, smaller_child, sift_down, heapify_from, heapify,
  pop_root, same_tool,
}

module _ (currents lasts : ℕ) where
  abbrev pub IsNamed : Element → Type 0
  IsNamed e = (e.current < currents) × (e.last < lasts)

  -- The first `size` elements name current pointers and last pointers.
  abbrev pub AllNamed : ℕ → (ℕ → Element) → Type 0
  AllNamed size f = (i : ℕ) → i < size → IsNamed (f i)

  push-AllNamed :
      (e : Element) (h : Heap)
      → IsNamed e
      → AllNamed h.size h.elements
      → AllNamed (push e h).size (push e h).elements
  unfolding push
  push-AllNamed e h n a i lt = ground (arith, a i)

  push_if-AllNamed :
      (b : Bool) (e : Element) (h : Heap)
      → IsNamed e
      → AllNamed h.size h.elements
      → let r = if b then push e h else h in AllNamed r.size r.elements
  push_if-AllNamed true e h n a = push-AllNamed e h n a
  push_if-AllNamed false e h n a = a

  swap-AllNamed :
      (size : ℕ) (f : ℕ → Element) (p c : ℕ)
      → p < size
      → c < size
      → AllNamed size f
      → AllNamed size (swap f p c)
  swap-AllNamed size f p c hp hc a i lt = ground (arith, a i lt, a p hp, a c hc)

  sift_down-AllNamed :
      (n size p : ℕ) (f : ℕ → Element) → AllNamed size f → AllNamed size (sift_down n size p f)
  unfolding sift_down
  sift_down-AllNamed zero size p f a = a
  sift_down-AllNamed (suc n) size p f a = elim (Bool-cases (leb size (p * 2 + 1))) [
    | inl leaf ↦ rw (leaf, sift_down) a
    | inr inner ↦
        let c = smaller_child size f p in
        elim (Bool-cases (leb (f p).distance (f c).distance)) [
          | inl sorted ↦ rw (inner, sift_down, sorted) a
          | inr sinks ↦
              rw (inner, sift_down, sinks)
                (sift_down-AllNamed n size c (swap f p c)
                  (swap-AllNamed size f p c (ground arith) (ground arith) a))
        ]
  ]

  heapify_from-AllNamed :
      (n size : ℕ) (f : ℕ → Element) → AllNamed size f → AllNamed size (heapify_from n size f)
  unfolding heapify_from
  heapify_from-AllNamed zero size f a = a
  heapify_from-AllNamed (suc n) size f a =
      heapify_from-AllNamed n size (sift_down size size n f) (sift_down-AllNamed size size n f a)

  pub heapify-AllNamed :
      (h : Heap) → AllNamed h.size h.elements → AllNamed (heapify h).size (heapify h).elements
  unfolding heapify
  heapify-AllNamed h a = heapify_from-AllNamed (h.size / 2) h.size h.elements a

  -- After the root was consumed, `size` counts the elements behind it.
  pub pop_root-AllNamed :
      (h : Heap)
      → AllNamed (h.size + 1) h.elements
      → AllNamed (pop_root h).size (pop_root h).elements
  unfolding pop_root
  pop_root-AllNamed h a =
      sift_down-AllNamed h.size h.size 0 (update h.elements 0 (h.elements h.size))
        (λ i lt. ground (arith, a i (omega (arith, lt)), a h.size (omega arith)))

  collect_last-AllNamed :
      (cur last : ℕ → Pointer) (c n l : ℕ) (h : Heap)
      → c < currents
      → l + n ≤ lasts
      → AllNamed h.size h.elements
      → let r = collect_last cur last c n l h in AllNamed r.size r.elements
  unfolding collect_last
  collect_last-AllNamed cur last c zero l h hc hl a = a
  collect_last-AllNamed cur last c (suc n) l h hc hl a =
      collect_last-AllNamed cur last c n (l + 1) _ hc (omega (arith, hl)) (
        push_if-AllNamed (same_tool (cur c).tool_type (last l).tool_type) _ h
          (hc, omega (arith, hl)) a)

  pub collect-AllNamed :
      (cur last : ℕ → Pointer) (n c : ℕ) (h : Heap)
      → c + n ≤ currents
      → AllNamed h.size h.elements
      → let r = collect cur last lasts n c h in AllNamed r.size r.elements
  unfolding collect
  collect-AllNamed cur last zero c h hc a = a
  collect-AllNamed cur last (suc n) c h hc a =
      collect-AllNamed cur last n (c + 1) _ (omega (arith, hc))
        (collect_last-AllNamed cur last c lasts 0 h (omega (arith, hc)) (omega arith) a)

-- Rounds beyond the size of the heap change nothing: the loop has ended by then.
pub sift_down-enough :
    (n size p : ℕ) (f : ℕ → Element)
    → size ≤ n + p
    → sift_down n size p f ≡ sift_down (suc n) size p f
unfolding sift_down
sift_down-enough zero size p f h = ground arith
sift_down-enough (suc n) size p f h = elim (Bool-cases (leb size (p * 2 + 1))) [
  | inl leaf ↦ rw (leaf, sift_down) refl
  | inr inner ↦
      let c = smaller_child size f p in
      elim (Bool-cases (leb (f p).distance (f c).distance)) [
        | inl sorted ↦ rw (inner, sift_down, sorted) refl
        | inr sinks ↦
            rw (inner, sift_down, sinks)
              (sift_down-enough n size c (swap f p c) (ground (arith, h)))
      ]
]
