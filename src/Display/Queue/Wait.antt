-- ===== src/Display/Queue/Wait.antt =====
-- waitForFreeSlotThenRelock of BufferQueueProducer.cpp, with the free lists that it takes from. What
-- other threads do while it waits is a list of wakes.
use osdi_artifact.Prelude.{
  ℕ, ◌+◌, ◌-◌, ◌^◌, ℤ, pos, negsuc, leb_ℤ, ltb, Bool, true, false, ◌&&◌, ◌||◌, Option, none, some,
  List, [], ◌∷◌, length, if◌then◌else◌,
}
use osdi_artifact.Display.Queue.State.{
  Slot, Queue, Core, Status, no_init, invalid_operation, would_block, timed_out,
}

pub data FreeSlotCaller : Type 0 where
  dequeue attach : FreeSlotCaller

-- The cast to size_t.
unfoldable pub as_size_t : ℤ → ℕ
as_size_t (pos n) = n
as_size_t (negsuc n) = 2 ^ 64 - 1 - n

abbrev pub or_else {ℓ} : {A : Type ℓ} → Option A → Option A → Option A
or_else none b = b
or_else (some a) b = some a

module _ (core : Core) where
  open core use {BufferState, is_dequeued, is_acquired, get_max_buffer_count}

  -- A wake of mDequeueCondition: whether it is the end of wait_for, and what is there after it.
  pub record Wake : Type 0 where
    pub is_timeout : Bool
    pub after : Queue BufferState → Queue BufferState

  unfoldable pub count_where : (BufferState → Bool) → (ℕ → Slot BufferState) → List ℕ → ℕ
  count_where test slots [] = 0
  count_where test slots (s ∷ ss) =
      (if test (slots s).buffer_state then 1 else 0) + count_where test slots ss

  abbrev pub dequeued_count : Queue BufferState → ℕ
  dequeued_count q = count_where is_dequeued q.slots q.active_buffers

  abbrev pub acquired_count : Queue BufferState → ℕ
  acquired_count q = count_where is_acquired q.slots q.active_buffers

  abbrev pub front : List ℕ → (ℕ → List ℕ → Queue BufferState) → Option (ℕ × Queue BufferState)
  front [] k = none
  front (n ∷ ns) k = some (n, k n ns)

  -- INVALID_BUFFER_SLOT is `none`.
  unfoldable pub get_free_buffer : Queue BufferState → Option (ℕ × Queue BufferState)
  get_free_buffer q = front q.free_buffers (λ n ns. record q { free_buffers = ns })

  -- The first of a set is its head, and its erase leaves the tail.
  unfoldable pub get_free_slot : Queue BufferState → Option (ℕ × Queue BufferState)
  get_free_slot q = front q.free_slots (λ n ns. record q { free_slots = ns })

  unfoldable pub free_for : FreeSlotCaller → Queue BufferState → Option (ℕ × Queue BufferState)
  free_for FreeSlotCaller.dequeue q =
      or_else (get_free_buffer q) (if q.allow_allocation then get_free_slot q else none)
  free_for FreeSlotCaller.attach q = or_else (get_free_slot q) (get_free_buffer q)

  abbrev pub shared_or :
      Option ℕ → FreeSlotCaller → Queue BufferState → Option (ℕ × Queue BufferState)
  shared_or none caller q = free_for caller q
  shared_or (some n) caller q = some (n, q)

  unfoldable pub too_many_buffers : Queue BufferState → Bool
  too_many_buffers q = ltb (as_size_t (get_max_buffer_count q)) (length q.queue)

  -- The slot that is found, which leaves its list.
  unfoldable pub find_slot : FreeSlotCaller → Queue BufferState → Option (ℕ × Queue BufferState)
  find_slot caller q =
      if too_many_buffers q
      then none
      else if q.shared_buffer_mode
      then shared_or q.shared_buffer_slot caller q
      else free_for caller q

  -- The tests that come first in each round.
  unfoldable pub refused : Queue BufferState → Option Status
  refused q =
      if q.is_abandoned
      then some no_init
      else if q.buffer_has_been_queued
          && leb_ℤ q.limits.max_dequeued_buffer_count (pos (dequeued_count q))
      then some invalid_operation
      else none

  -- Whether a round that finds nothing returns at once.
  unfoldable pub would_not_wait : Queue BufferState → Bool
  would_not_wait q =
      (q.limits.dequeue_buffer_cannot_block || q.limits.async_mode)
      && leb_ℤ (pos (acquired_count q)) q.limits.max_acquired_buffer_count

  -- One round: it returns, it finds a slot, or it waits.
  pub data Round : Type 0 where
    stop : Status → Round
    take : ℕ → Queue BufferState → Round
    wait : Round

  abbrev pub no_slot : Bool → Round
  no_slot true = stop would_block
  no_slot false = wait

  abbrev pub round_of : Option Status → Option (ℕ × Queue BufferState) → Bool → Round
  round_of (some status) found now = stop status
  round_of none (some (n, q)) now = take n q
  round_of none none now = no_slot now

  unfoldable pub round : FreeSlotCaller → Queue BufferState → Round
  round caller q = round_of (refused q) (find_slot caller q) (would_not_wait q)

  -- How the wait ends: `blocked` where no further wake comes; with a slot, the wakes that are left.
  pub data Waited : Type 0 where
    failed : Status → Queue BufferState → Waited
    found : ℕ → Queue BufferState → List Wake → Waited
    blocked : Queue BufferState → Waited

  abbrev pub last_round : Queue BufferState → Round → Waited
  last_round q (stop status) = failed status q
  last_round q (take n q') = found n q' []
  last_round q wait = blocked q

  abbrev pub after_round : Queue BufferState → Wake → List Wake → Waited → Round → Waited
  after_round q w ws next (stop status) = failed status q
  after_round q w ws next (take n q') = found n q' (w ∷ ws)
  after_round q w ws next wait =
      if leb_ℤ (pos 0) q.dequeue_timeout && w.is_timeout then failed timed_out (w.after q) else next

  unfoldable pub wait_for_free_slot : FreeSlotCaller → List Wake → Queue BufferState → Waited
  wait_for_free_slot caller [] q = last_round q (round caller q)
  wait_for_free_slot caller (w ∷ ws) q =
      after_round q w ws (wait_for_free_slot caller ws (w.after q)) (round caller q)
