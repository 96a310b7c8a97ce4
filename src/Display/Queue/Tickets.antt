-- ===== src/Display/Queue/Tickets.antt =====
-- queueBuffer of BufferQueueProducer.cpp: the callbacks, which threads make in the order of their
-- tickets, under a mutex of their own. A state of the threads has those that wait for their ticket.
pub mod Order
use osdi_artifact.Prelude.{
  ℕ, zero, suc, ◌+◌, ◌≤◌, ◌<◌, ◌==◌, ℤ, Bool, true, false, not, ◌||◌, Option, none, some, List, [],
  ◌∷◌, ◌++◌, length, get_elem?, take, ◌≡◌, refl, ap, subst, arith, if◌then◌else◌, if-keeps,
}
use osdi_artifact.Display.Queue.State.{Queue, Item, Rect, Core}
use osdi_artifact.Display.Queue.{in_range}
use osdi_artifact.Display.Queue.Enqueue.{
  Input, Pushed, Sent, Queued, sends, queue_buffer, queue_fenced, queue_at, queue_marked, push,
  push_on, make_item, queue_slot, mark_shared, crop_fits, is_scaling_mode, freed, free_last,
  last_item, overwrite, send,
}
use osdi_artifact.Display.Queue.Dequeue.{is_first_shared}
use osdi_artifact.Display.Queue.Found.{All}

-- The fields that the callback mutex guards.
pub record Callbacks : Type 0 where
  pub current_callback_ticket : ℕ
  pub last_queue_buffer_fence : ℕ
  pub last_queued_crop : Rect
  pub last_queued_transform : ℕ

-- What the consumer's listener is told.
pub data Told : Type 0 where
  frame_available : Item → Told
  frame_replaced : Item → Told

module _ (core : Core) where
  open core use {BufferState, constants}

  -- The callback of one thread; without a listener there is none.
  abbrev pub tell : Sent core → List Told
  tell s =
      if not s.has_listener
      then []
      else if s.is_replacing
      then frame_replaced s.item ∷ []
      else frame_available s.item ∷ []

  -- The part that holds the callback mutex, once the ticket is the current one.
  unfoldable pub call_back : Sent core → Callbacks → Callbacks
  call_back s c = record {
    current_callback_ticket = c.current_callback_ticket + 1;
    last_queue_buffer_fence = s.fence;
    last_queued_crop = s.item.crop;
    last_queued_transform = s.item.transform;
  }

  -- The fence that the thread waits for in the end: the one of the buffer before, for EGL.
  unfoldable pub throttled_by : ℕ → Callbacks → Option ℕ
  throttled_by api c = if api == constants.api_egl then some c.last_queue_buffer_fence else none

  -- The queue, the threads that have queued and wait, the callbacks, what has been queued and what
  -- has been told, both in their order.
  pub record Threads : Type 0 where
    pub queue : Queue BufferState
    pub waiting : List (Sent core)
    pub callbacks : Callbacks
    pub queued : List (Sent core)
    pub called : List (Sent core)

  -- A thread queues a buffer, a thread whose ticket is current calls back, or the queue changes in
  -- another way, which takes no ticket.
  pub data Step (t u : Threads) : Type 0 where
    queues :
        (slot : ℤ) (i : Input) (s : Sent core) (q : Queue BufferState)
        → queue_buffer core slot i t.queue ≡ sends s q
        → u ≡ record t { queue = q; waiting = t.waiting ++ s ∷ []; queued = t.queued ++ s ∷ [] }
        → Step t u
    calls :
        (before after : List (Sent core)) (s : Sent core)
        → t.waiting ≡ before ++ s ∷ after
        → s.ticket ≡ t.callbacks.current_callback_ticket
        → u ≡ record t {
          waiting = before ++ after;
          callbacks = call_back s t.callbacks;
          called = t.called ++ s ∷ [];
        }
        → Step t u
    changes :
        (q : Queue BufferState)
        → q.next_callback_ticket ≡ t.queue.next_callback_ticket
        → u ≡ record t { queue = q }
        → Step t u

  pub data Reach (t : Threads) : Threads → Type 0 where
    here : Reach t t
    next : {u v : Threads} → Reach t u → Step u v → Reach t v

  -- No buffer has been queued yet.
  pub record IsInitial (t : Threads) : Type 0 where
    pub no_ticket : t.queue.next_callback_ticket ≡ 0
    pub no_callback : t.callbacks.current_callback_ticket ≡ 0
    pub none_waiting : t.waiting ≡ []
    pub none_queued : t.queued ≡ []
    pub none_called : t.called ≡ []
