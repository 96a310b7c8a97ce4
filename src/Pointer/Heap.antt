-- ===== src/Pointer/Heap.antt =====
-- The heap of distances of TouchInputMapper::assignPointerIds in InputReader.cpp. An array is a
-- function of its index, and the heap is as large as it has to be; a distance keeps its low 48 bits.
pub mod Range
use osdi_artifact.Prelude.{
  ℕ, zero, suc, ◌+◌, ◌-◌, ◌*◌, ◌/◌, ◌%◌, ◌^◌, ◌==◌, ℤ, pos, negsuc, ◌-ℤ◌, Bool, true, false, ◌&&◌,
  if◌then◌else◌, ltb, leb, update,
}
use osdi_artifact.Input.TouchButtons.{ToolType}
use osdi_artifact.Pointer.Raw.{Pointer}

pub record Element : Type 0 where
  pub current : ℕ
  pub last : ℕ
  pub distance : ℕ

pub record Heap : Type 0 where
  pub elements : ℕ → Element
  pub size : ℕ

abbrev tool_index : ToolType → ℕ
tool_index ToolType.unknown = 0
tool_index ToolType.finger = 1
tool_index ToolType.stylus = 2
tool_index ToolType.mouse = 3
tool_index ToolType.eraser = 4

abbrev pub same_tool : ToolType → ToolType → Bool
same_tool a b = tool_index a == tool_index b

abbrev magnitude : ℤ → ℕ
magnitude (pos n) = n
magnitude (negsuc n) = suc n

-- The square of the Euclidean distance.
abbrev distance : Pointer → Pointer → ℕ
distance p q =
    let dx = magnitude (p.x -ℤ q.x) in
    let dy = magnitude (p.y -ℤ q.y) in (dx * dx + dy * dy) % 2 ^ 48

unfoldable pub push : Element → Heap → Heap
push e h = record { elements = update h.elements h.size e; size = h.size + 1 }

-- The inner loop over the last pointers, `n` of them from `l` on.
unfoldable pub collect_last : (ℕ → Pointer) → (ℕ → Pointer) → ℕ → ℕ → ℕ → Heap → Heap
unfolding push
collect_last cur last c zero l h = h
collect_last cur last c (suc n) l h = collect_last cur last c n (l + 1) (
    if same_tool (cur c).tool_type (last l).tool_type
    then push (record { current = c; last = l; distance = distance (cur c) (last l) }) h
    else h)

-- The outer loop over the current pointers.
unfoldable pub collect : (ℕ → Pointer) → (ℕ → Pointer) → ℕ → ℕ → ℕ → Heap → Heap
unfolding collect_last
collect cur last lasts zero c h = h
collect cur last lasts (suc n) c h =
    collect cur last lasts n (c + 1) (collect_last cur last c lasts 0 h)

abbrev pub swap : (ℕ → Element) → ℕ → ℕ → ℕ → Element
swap f i j = update (update f i (f j)) j (f i)

-- The child with the smaller distance.
abbrev pub smaller_child : ℕ → (ℕ → Element) → ℕ → ℕ
smaller_child size f p =
    let c = p * 2 + 1 in
    if ltb (c + 1) size && ltb (f (c + 1)).distance (f c).distance then c + 1 else c

-- The loop of a sift down: the parent grows at each round, so that `size` rounds are enough.
unfoldable pub sift_down : ℕ → ℕ → ℕ → (ℕ → Element) → ℕ → Element
sift_down zero size p f = f
sift_down (suc n) size p f = elim (leb size (p * 2 + 1)) [
  | true ↦ f
  | false ↦
      let c = smaller_child size f p in
      elim (leb (f p).distance (f c).distance) [
        | true ↦ f
        | false ↦ sift_down n size c (swap f p c)
      ]
]

-- The sift downs from `n - 1` to 0.
unfoldable pub heapify_from : ℕ → ℕ → (ℕ → Element) → ℕ → Element
unfolding sift_down
heapify_from zero size f = f
heapify_from (suc n) size f = heapify_from n size (sift_down size size n f)

unfoldable pub heapify : Heap → Heap
unfolding heapify_from
heapify h = record h { elements = heapify_from (h.size / 2) h.size h.elements }

-- The last element takes the place of the root, which was consumed before, and sinks.
unfoldable pub pop_root : Heap → Heap
unfolding sift_down
pop_root h = record h {
  elements = sift_down h.size h.size 0 (update h.elements 0 (h.elements h.size));
}
