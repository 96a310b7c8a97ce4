-- ===== src/Display/Queue/Counts.antt =====
-- BufferState and BufferQueueCore as their headers document them, for BufferQueueProducer.cpp: a
-- state counts its owners, and the lists of slots balance with the counts.
use osdi_artifact.Prelude.{
  ℕ, ◌+◌, ◌-◌, ◌≤◌, ◌==◌, ltb, Bool, false, not, ◌&&◌, none, some, List, [], ◌∷◌, ◌≡◌,
  if◌then◌else◌, ℤ,
}
use osdi_artifact.Display.Queue.State.{Slot, Queue, Item, Core}
use osdi_artifact.Display.Queue.Sets.{count}

-- mDequeueCount, mQueueCount, mAcquireCount and mShared.
pub record View : Type 0 where
  pub dequeues : ℕ
  pub queues : ℕ
  pub acquires : ℕ
  pub shared : Bool

abbrev pub total : View → ℕ
total v = v.dequeues + v.queues + v.acquires

-- How many items of the queue hold the slot; a stale item holds none.
abbrev pub items : ℕ → List Item → ℕ
items n [] = 0
items n (x ∷ xs) = (if not x.is_stale && x.slot == n then 1 else 0) + items n xs

module _ (core : Core) where
  open core use {
    BufferState, is_free, is_dequeued, is_shared, set_shared, dequeue, enqueue, free_queued,
    attach_producer, cancel, clear_buffer_slot, wait_while_allocating, adjust_available_slots,
    free_all_buffers,
  }

  -- What each operation of BufferState does to the counts.
  pub record Counts : Type 0 where
    pub view : BufferState → View
    pub is_free-view : (s : BufferState) → is_free s ≡ (total (view s) == 0)
    pub is_dequeued-view : (s : BufferState) → is_dequeued s ≡ ltb 0 (view s).dequeues
    pub is_shared-view : (s : BufferState) → is_shared s ≡ (view s).shared
    pub view-set_shared :
        (b : Bool) (s : BufferState) → view (set_shared b s) ≡ record (view s) { shared = b }
    pub view-dequeue :
        (s : BufferState) → view (dequeue s) ≡ record (view s) { dequeues = (view s).dequeues + 1 }
    pub view-enqueue :
        (s : BufferState)
        → view (enqueue s)
          ≡ record (view s) { dequeues = (view s).dequeues - 1; queues = (view s).queues + 1 }
    pub view-free_queued :
        (s : BufferState) → view (free_queued s) ≡ record (view s) { queues = (view s).queues - 1 }
    pub view-attach_producer :
        (s : BufferState)
        → view (attach_producer s) ≡ record (view s) { dequeues = (view s).dequeues + 1 }
    pub view-cancel :
        (s : BufferState) → view (cancel s) ≡ record (view s) { dequeues = (view s).dequeues - 1 }
    pub view-clear :
        (s : Slot BufferState)
        → view (clear_buffer_slot s).buffer_state
          ≡ record { dequeues = 0; queues = 0; acquires = 0; shared = false }

  module _ (counts : Counts) where
    open counts use {view}

    abbrev pub places : ℕ → Queue BufferState → ℕ
    places n q = count n q.free_slots + count n q.free_buffers + count n q.active_buffers

    -- Without a shared buffer, each slot is in one list at most, an active one has one owner, the
    -- others have none, and an item holds each slot that is queued.
    pub record IsBalanced (q : Queue BufferState) : Type 0 where
      pub one_place : (n : ℕ) → places n q ≤ 1
      pub active-total : (n : ℕ) → count n q.active_buffers ≡ total (view (q.slots n).buffer_state)
      pub items-queues : (n : ℕ) → items n q.queue ≡ (view (q.slots n).buffer_state).queues
      pub not_shared : (n : ℕ) → (view (q.slots n).buffer_state).shared ≡ false
      pub no_shared_mode : q.shared_buffer_mode ≡ false
      pub no_shared_slot : q.shared_buffer_slot ≡ none

    -- A slot that has been taken from its list.
    pub record IsLoose (n : ℕ) (q : Queue BufferState) : Type 0 where
      pub balanced : IsBalanced q
      pub nowhere : places n q ≡ 0

    abbrev pub Keeps : (Queue BufferState → Queue BufferState) → Type 0
    Keeps f = (q : Queue BufferState) → IsBalanced q → IsBalanced (f q)

    -- The parts of BufferQueueCore keep the balance, as do other threads while one waits.
    pub record Balancing : Type 0 where
      pub wait-IsBalanced : Keeps wait_while_allocating
      pub adjust-IsBalanced :
          (d : ℤ) (q q' : Queue BufferState)
          → adjust_available_slots d q ≡ some q'
          → IsBalanced q
          → IsBalanced q'
      pub free_all-IsBalanced : Keeps free_all_buffers
