-- ===== src/Pointer/Match.antt =====
-- TouchInputMapper::assignPointerIds of InputReader.cpp: the pointers of a packet without tracking
-- ids take over the ids of the nearest pointers of the packet before.
pub mod Inverse
pub mod Pulls
pub mod Ids
use osdi_artifact.Prelude.{
  ℕ, zero, suc, ◌-◌, ◌==◌, Bool, true, false, ◌&&◌, if◌then◌else◌, update, min,
}
use osdi_artifact.Pointer.Bits.{BitSet32}
use osdi_artifact.Pointer.Raw.{Pointer, RawPointerData, mark_id_bit, clear_id_bits}
use osdi_artifact.Pointer.Heap.{Element, Heap, same_tool, collect, heapify, pop_root}

-- The variables of the loop that pulls matches out of the heap.
pub record Match (Bits : Type 0) : Type 0 where
  pub heap : Heap
  pub matched_last : Bits
  pub matched_current : Bits
  pub used : Bits
  pub first : Bool
  pub out : RawPointerData Bits

module _ (bs : BitSet32) where
  open bs use {Bits, empty, has_bit, mark_bit, first_unmarked, count}

  -- A pointer gets an id, as in each branch of the source.
  unfoldable pub set_id : ℕ → ℕ → RawPointerData Bits → RawPointerData Bits
  unfolding mark_id_bit
  set_id c id d = mark_id_bit bs id (d.pointers c).is_hovering (record d {
    pointers = update d.pointers c (record (d.pointers c) { id = id });
    id_to_index = update d.id_to_index id c;
  })

  -- All pointers are new: pointer i gets id i.
  unfoldable pub number_all : ℕ → ℕ → RawPointerData Bits → RawPointerData Bits
  unfolding set_id
  number_all zero i d = d
  number_all (suc n) i d = number_all n (suc i) (set_id i i d)

  -- The root of the heap, which leaves it.
  unfoldable pub take_root : Match Bits → Match Bits
  unfolding pop_root
  take_root m =
      let h = if m.first then m.heap else pop_root m.heap in
      record m { heap = record h { size = h.size - 1 }; first = false }

  abbrev pub match_root : (ℕ → Pointer) → Element → Match Bits → Match Bits
  match_root last e m =
      let id = (last e.last).id in
      record m {
        matched_current = mark_bit m.matched_current e.current;
        matched_last = mark_bit m.matched_last e.last;
        out = set_id e.current id m.out;
        used = mark_bit m.used id;
      }

  -- The inner loop, which takes one element at each round: up to the next match.
  unfoldable pub pull : (ℕ → Pointer) → ℕ → Match Bits → Match Bits
  unfolding take_root set_id
  pull last zero m = m
  pull last (suc n) m =
      let m1 = take_root m in
      let e = m1.heap.elements 0 in
      elim (has_bit m.matched_current e.current) [
        | true ↦ pull last n m1
        | false ↦ elim (has_bit m.matched_last e.last) [
          | true ↦ pull last n m1
          | false ↦ match_root last e m1
        ]
      ]

  -- The outer loop; a pull of an empty heap does nothing.
  unfoldable pub rounds : (ℕ → Pointer) → ℕ → Match Bits → Match Bits
  unfolding pull
  rounds last zero m = m
  rounds last (suc i) m = rounds last i (pull last m.heap.size m)

  -- Fresh ids for the pointers that were not matched.
  unfoldable pub give_fresh : ℕ → Match Bits → Match Bits
  unfolding set_id
  give_fresh zero m = m
  give_fresh (suc n) m =
      let c = first_unmarked m.matched_current in
      let id = first_unmarked m.used in
      give_fresh n (record m {
        matched_current = mark_bit m.matched_current c;
        used = mark_bit m.used id;
        out = set_id c id m.out;
      })

  unfoldable pub match_all : RawPointerData Bits → RawPointerData Bits → RawPointerData Bits
  unfolding rounds give_fresh collect heapify
  match_all last d =
      let h = heapify (
        collect d.pointers last.pointers last.pointer_count d.pointer_count 0
          (record { elements = λ i. record { current = 0; last = 0; distance = 0 }; size = 0 })) in
      let start : Match Bits = record {
        heap = h;
        matched_last = empty;
        matched_current = empty;
        used = empty;
        first = true;
        out = d;
      } in
      let m = rounds last.pointers (min d.pointer_count last.pointer_count) start in
      (give_fresh (d.pointer_count - count m.matched_current) m).out

  unfoldable pub assign_pointer_ids :
      RawPointerData Bits → RawPointerData Bits → RawPointerData Bits
  unfolding clear_id_bits number_all set_id match_all
  assign_pointer_ids last current =
      let d = clear_id_bits bs current in
      if d.pointer_count == 0
      then d
      else if last.pointer_count == 0
      then number_all d.pointer_count 0 d
      else if d.pointer_count == 1
          && (last.pointer_count == 1
              && same_tool (d.pointers 0).tool_type (last.pointers 0).tool_type)
      then set_id 0 (last.pointers 0).id d
      else match_all last d
