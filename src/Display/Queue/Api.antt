-- ===== src/Display/Queue/Api.antt =====
-- Runs of the operations of BufferQueueProducer.cpp.
use osdi_artifact.Prelude.{ℕ, ℤ, Bool, Option, none, some, List, [], ◌∷◌, ◌≡◌, refl}
use osdi_artifact.Display.Queue.State.{Queue, Request, Core}
use osdi_artifact.Display.Queue.{request_buffer, detach_buffer, detach_next_buffer, cancel_buffer}
use osdi_artifact.Display.Queue.Counts.{Counts, IsBalanced, Balancing}
use osdi_artifact.Display.Queue.Wait.{Wake}
use osdi_artifact.Display.Queue.Dequeue.{
  Dequeued, gives, waits_on, crashes, exhausted, Course, dequeue_buffer,
}
use osdi_artifact.Display.Queue.Attach.{Attached, attach_buffer}
use osdi_artifact.Display.Queue.Enqueue.{Input, Queued, sends, queue_buffer}
use osdi_artifact.Display.Queue.Limits.{
  set_max_dequeued_buffer_count, set_async_mode, set_dequeue_timeout, allow_allocation,
  set_generation_number, set_auto_refresh, set_legacy_buffer_drop,
}
use osdi_artifact.Display.Queue.Connect.{
  Listener, DisconnectMode, connect, disconnect, set_sideband_stream,
}
use osdi_artifact.Display.Queue.Allocate.{
  AllocationRound, Allocated, returned, unfinished, allocate_buffers,
}
use osdi_artifact.Display.Queue.Found.{All, Fair}
use osdi_artifact.Display.Queue.Kept.{IsFair, DequeuedKeeps, dequeue_buffer-Keeps}
use osdi_artifact.Display.Queue.Sent.{
  AttachedKeeps, attach_buffer-Keeps, QueuedKeeps, queue_buffer-Keeps,
}
use osdi_artifact.Display.Queue.Settled.{
  rest_changes, request_buffer-Keeps, detach_buffer-Keeps, detach_next_buffer-Keeps,
  cancel_buffer-Keeps, set_max_dequeued_buffer_count-Keeps, set_async_mode-Keeps,
  set_dequeue_timeout-Keeps,
}
use osdi_artifact.Display.Queue.Linked.{
  connect-Keeps, disconnect-Keeps, AllocatedKeeps, IsFairRound, allocate_buffers-Keeps,
}

module _ (core : Core) where
  open core use {BufferState}

  -- An operation with its arguments, but for setSharedBufferMode.
  pub data Operation : Type 0 where
    request : ℤ → Operation
    detach : ℤ → Operation
    detach_next : Bool → Bool → Operation
    cancel : ℤ → Option ℕ → Operation
    dequeue : ℕ → Course core → Request → Operation
    attach : Bool → Option ℕ → List (Wake core) → Operation
    queue : ℤ → Input → Operation
    allocate : List (AllocationRound core) → Request → Operation
    max_dequeued : ℤ → Operation
    async : Bool → Operation
    timeout : ℤ → Operation
    connects : Option Listener → ℕ → Bool → Bool → ℤ → Operation
    disconnects : ℕ → DisconnectMode → ℤ → Operation
    generation : ℕ → Operation
    allow refresh legacy : Bool → Operation
    sideband : Option ℕ → Operation

  -- The queue behind a call; there is none where the process has crashed.
  abbrev pub after_dequeue : Dequeued core → Option (Queue BufferState)
  after_dequeue (Dequeued.refuses status q) = some q
  after_dequeue (gives a q) = some q
  after_dequeue (waits_on q) = some q
  after_dequeue crashes = none
  after_dequeue exhausted = none

  abbrev pub after_attach : Attached core → Queue BufferState
  after_attach (Attached.refuses status q) = q
  after_attach (Attached.gives n q) = q
  after_attach (Attached.waits_on q) = q

  abbrev pub after_queue : Queued core → Option (Queue BufferState)
  after_queue (Queued.refuses status q) = some q
  after_queue (sends s q) = some q
  after_queue Queued.crashes = none

  abbrev pub after_allocate : Allocated core → Queue BufferState
  after_allocate (returned q) = q
  after_allocate (unfinished q) = q

  abbrev pub perform : Operation → Queue BufferState → Option (Queue BufferState)
  perform (request s) q = some (request_buffer core s q).queue
  perform (detach s) q = some (detach_buffer core s q).queue
  perform (detach_next b f) q = some (detach_next_buffer core b f q).done.queue
  perform (cancel s f) q = some (cancel_buffer core s f q).queue
  perform (dequeue fuel c r) q = after_dequeue (dequeue_buffer core fuel c r q)
  perform (attach out b ws) q = some (after_attach (attach_buffer core out b ws q))
  perform (queue s i) q = after_queue (queue_buffer core s i q)
  perform (allocate cs r) q = some (after_allocate (allocate_buffers core cs r q))
  perform (max_dequeued n) q = some (set_max_dequeued_buffer_count core n q).queue
  perform (async b) q = some (set_async_mode core b q).queue
  perform (timeout t) q = some (set_dequeue_timeout core t q).queue
  perform (connects l api by_app out pid) q = some (connect core l api by_app out pid q).queue
  perform (disconnects api mode pid) q = some (disconnect core api mode pid q).queue
  perform (generation n) q = some (set_generation_number core n q)
  perform (allow b) q = some (allow_allocation core b q)
  perform (refresh b) q = some (set_auto_refresh core b q)
  perform (legacy b) q = some (set_legacy_buffer_drop core b q)
  perform (sideband s) q = some (set_sideband_stream core s q).0

  abbrev pub and_then :
      Option (Queue BufferState)
      → (Queue BufferState → Option (Queue BufferState))
      → Option (Queue BufferState)
  and_then none k = none
  and_then (some q) k = k q

  abbrev pub run_all : List Operation → Queue BufferState → Option (Queue BufferState)
  run_all [] q = some q
  run_all (o ∷ os) q = and_then (perform o q) (run_all os)

module _ (core : Core) (counts : Counts core) (laws : Balancing core counts) where
  open core use {BufferState}

  abbrev Balanced : Queue BufferState → Type 0
  Balanced = IsBalanced core counts

  abbrev pub IsBalancedIf : Option (Queue BufferState) → Type 0
  IsBalancedIf none = Unit
  IsBalancedIf (some q) = Balanced q

  -- Other threads keep the balance while an operation waits; an allocation succeeds, and nobody
  -- abandons the queue meanwhile.
  abbrev pub IsFairTo : Operation core → Type 0
  IsFairTo (dequeue fuel c r) = IsFair core counts laws c
  IsFairTo (attach out b ws) = Fair core counts ws
  IsFairTo (allocate cs r) = All (IsFairRound core counts laws) cs
  IsFairTo o = Unit

  after_dequeue-IsBalanced :
      (d : Dequeued core) → DequeuedKeeps core counts laws d → IsBalancedIf (after_dequeue core d)
  after_dequeue-IsBalanced (Dequeued.refuses status q) h = h
  after_dequeue-IsBalanced (gives a q) h = h
  after_dequeue-IsBalanced (waits_on q) h = h
  after_dequeue-IsBalanced crashes h = tt
  after_dequeue-IsBalanced exhausted h = tt

  after_attach-IsBalanced :
      (a : Attached core) → AttachedKeeps core counts laws a → Balanced (after_attach core a)
  after_attach-IsBalanced (Attached.refuses status q) h = h
  after_attach-IsBalanced (Attached.gives n q) h = h
  after_attach-IsBalanced (Attached.waits_on q) h = h

  after_queue-IsBalanced :
      (d : Queued core) → QueuedKeeps core counts laws d → IsBalancedIf (after_queue core d)
  after_queue-IsBalanced (Queued.refuses status q) h = h
  after_queue-IsBalanced (sends s q) h = h
  after_queue-IsBalanced Queued.crashes h = tt

  after_allocate-IsBalanced :
      (a : Allocated core) → AllocatedKeeps core counts laws a → Balanced (after_allocate core a)
  after_allocate-IsBalanced (returned q) h = h
  after_allocate-IsBalanced (unfinished q) h = h

  set_field :
      (p q : Queue BufferState)
      → p.slots ≡ q.slots
      → p.free_slots ≡ q.free_slots
      → p.free_buffers ≡ q.free_buffers
      → p.active_buffers ≡ q.active_buffers
      → p.queue ≡ q.queue
      → p.shared_buffer_mode ≡ q.shared_buffer_mode
      → p.shared_buffer_slot ≡ q.shared_buffer_slot
      → Balanced p
      → Balanced q
  set_field = rest_changes core counts laws

  pub perform-IsBalanced :
      (o : Operation core) (q : Queue BufferState)
      → IsFairTo o
      → Balanced q
      → IsBalancedIf (perform core o q)
  unfolding set_generation_number allow_allocation set_auto_refresh set_legacy_buffer_drop
      set_sideband_stream
  perform-IsBalanced (request s) q f b = request_buffer-Keeps core counts laws s q b
  perform-IsBalanced (detach s) q f b = detach_buffer-Keeps core counts laws s q b
  perform-IsBalanced (detach_next x y) q f b = detach_next_buffer-Keeps core counts laws x y q b
  perform-IsBalanced (cancel s fence) q f b = cancel_buffer-Keeps core counts laws s fence q b
  perform-IsBalanced (dequeue fuel c r) q f b =
      after_dequeue-IsBalanced _ (dequeue_buffer-Keeps core counts laws fuel c r q f b)
  perform-IsBalanced (attach out x ws) q f b =
      after_attach-IsBalanced _ (attach_buffer-Keeps core counts laws out x ws q f b)
  perform-IsBalanced (queue s i) q f b =
      after_queue-IsBalanced _ (queue_buffer-Keeps core counts laws s i q b)
  perform-IsBalanced (allocate cs r) q f b =
      after_allocate-IsBalanced _ (allocate_buffers-Keeps core counts laws cs r q f b)
  perform-IsBalanced (max_dequeued n) q f b =
      set_max_dequeued_buffer_count-Keeps core counts laws n q b
  perform-IsBalanced (async x) q f b = set_async_mode-Keeps core counts laws x q b
  perform-IsBalanced (timeout t) q f b = set_dequeue_timeout-Keeps core counts laws t q b
  perform-IsBalanced (connects l api by_app out pid) q f b =
      connect-Keeps core counts laws l api by_app out pid q b
  perform-IsBalanced (disconnects api mode pid) q f b =
      disconnect-Keeps core counts laws api mode pid q b
  perform-IsBalanced (generation n) q f b = set_field q _ refl refl refl refl refl refl refl b
  perform-IsBalanced (allow x) q f b = set_field q _ refl refl refl refl refl refl refl b
  perform-IsBalanced (refresh x) q f b = set_field q _ refl refl refl refl refl refl refl b
  perform-IsBalanced (legacy x) q f b = set_field q _ refl refl refl refl refl refl refl b
  perform-IsBalanced (sideband s) q f b = set_field q _ refl refl refl refl refl refl refl b

  and_then-IsBalanced :
      (o : Option (Queue BufferState)) (k : Queue BufferState → Option (Queue BufferState))
      → IsBalancedIf o
      → ((q : Queue BufferState) → Balanced q → IsBalancedIf (k q))
      → IsBalancedIf (and_then core o k)
  and_then-IsBalanced none k h f = tt
  and_then-IsBalanced (some q) k h f = f q h

  -- For states that count their owners as documented, without the shared buffer mode, and where
  -- three calls of BufferQueueCore (the wait for an allocation, adjustAvailableSlotsLocked and
  -- freeAllBuffersLocked) keep the balance: a balanced queue is balanced after any run of the
  -- operations, refused or not, unless the process has crashed or the search of dequeueBuffer has
  -- run out of fuel. Other threads keep the balance while an operation waits; while dequeueBuffer
  -- allocates they do not abandon the queue, and its allocation succeeds. Balanced means: a slot
  -- is in one list at most, an active slot has one owner and the others have none, and one item of
  -- the queue holds each slot that is queued.
  pub run_all-IsBalanced :
      (os : List (Operation core)) (q : Queue BufferState)
      → All IsFairTo os
      → Balanced q
      → IsBalancedIf (run_all core os q)
  run_all-IsBalanced [] q f b = b
  run_all-IsBalanced (o ∷ os) q f b =
      and_then-IsBalanced (perform core o q) (run_all core os) (perform-IsBalanced o q f.0 b)
        (λ q' b'. run_all-IsBalanced os q' f.1 b')
