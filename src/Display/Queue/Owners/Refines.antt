-- ===== src/Display/Queue/Owners/Refines.antt =====
-- BufferQueueProducer.cpp refines the protocol of the owners of slots, call by call.
use osdi_artifact.Prelude.{Option, none, some, List, [], ◌∷◌, refl}
use osdi_artifact.Display.Queue.State.{Queue, Core}
use osdi_artifact.Display.Queue.Counts.{Counts, IsBalanced, Balancing}
use osdi_artifact.Display.Queue.{in_range, detach_buffer, cancel_buffer}
use osdi_artifact.Display.Queue.Dequeue.{dequeue_buffer}
use osdi_artifact.Display.Queue.Attach.{attach_buffer}
use osdi_artifact.Display.Queue.Enqueue.{queue_buffer}
use osdi_artifact.Display.Queue.Limits.{
  allow_allocation, set_generation_number, set_auto_refresh, set_legacy_buffer_drop,
}
use osdi_artifact.Display.Queue.Connect.{set_sideband_stream}
use osdi_artifact.Display.Queue.Allocate.{AllocationRound}
use osdi_artifact.Display.Queue.Found.{All, Fair}
use osdi_artifact.Display.Queue.Linked.{IsFairRound}
use osdi_artifact.Display.Queue.Owners.{stays}
use osdi_artifact.Display.Queue.Owners.Moves.{Moves}
use osdi_artifact.Display.Queue.Owners.QueueMoves.{QueuedMoves, queue_buffer-Moves}
use osdi_artifact.Display.Queue.Owners.WaitMoves.{Plays, AllPlay}
use osdi_artifact.Display.Queue.Owners.DequeueMoves.{
  DequeuedMoves, PlaysFair, dequeue_buffer-Moves, AttachedMoves, attach_buffer-Moves,
}
use osdi_artifact.Display.Queue.Owners.Protocol.{
  Returns, PlaysRound, request_buffer-Moves, detach_buffer-Returns, detach_next_buffer-Moves,
  cancel_buffer-Returns, allocate_buffers-Moves,
}
use osdi_artifact.Display.Queue.Api.{
  Operation, request, detach, detach_next, cancel, dequeue, attach, queue, allocate, max_dequeued,
  async, timeout, connects, disconnects, generation, allow, refresh, legacy, sideband, perform,
  IsBalancedIf, IsFairTo, perform-IsBalanced,
}

module _ (core : Core) (counts : Counts core) (laws : Balancing core counts) where
  open core use {BufferState, wait_while_allocating}

  abbrev Balanced : Queue BufferState → Type 0
  Balanced = IsBalanced core counts

  -- An operation that neither changes the number of slots nor connects, and in whose course the
  -- other threads keep the balance and play by the protocol.
  abbrev pub PlaysTo : Operation core → Type 0
  PlaysTo (dequeue fuel c r) = PlaysFair core counts laws c
  PlaysTo (attach out b ws) = Fair core counts ws × AllPlay core counts ws
  PlaysTo (allocate cs r) = All (PlaysRound core counts laws) cs
  PlaysTo (max_dequeued n) = ⊥
  PlaysTo (async b) = ⊥
  PlaysTo (timeout t) = ⊥
  PlaysTo (connects l api by_app out pid) = ⊥
  PlaysTo (disconnects api mode pid) = ⊥
  PlaysTo o = Unit

  abbrev MovesIf : Queue BufferState → Option (Queue BufferState) → Type 0
  MovesIf p none = Unit
  MovesIf p (some q) = Moves core counts p q

  -- What an operation on a queue does in the protocol, by its result.
  abbrev pub Acts : Operation core → Queue BufferState → Type 0
  Acts (dequeue fuel c r) q = DequeuedMoves core counts laws q (dequeue_buffer core fuel c r q)
  Acts (attach out b ws) q = AttachedMoves core counts laws q (attach_buffer core out b ws q)
  Acts (queue s i) q =
      QueuedMoves core counts (in_range core.num_buffer_slots s) q (queue_buffer core s i q)
  Acts (cancel s fence) q = Returns core counts laws s q (cancel_buffer core s fence q)
  Acts (detach s) q = Returns core counts laws s q (detach_buffer core s q)
  Acts o q = MovesIf q (perform core o q)

  abbrev Behind : (Queue BufferState → Type 0) → Option (Queue BufferState) → Type 0
  Behind P none = Unit
  Behind P (some q) = P q

  -- Each operation of a run, on the queue that those before it leave.
  abbrev pub AllAct : List (Operation core) → Queue BufferState → Type 0
  AllAct [] q = Unit
  AllAct (o ∷ os) q = Acts o q × Behind (AllAct os) (perform core o q)

  PlaysRound-IsFairRound :
      (cs : List (AllocationRound core))
      → All (PlaysRound core counts laws) cs
      → All (IsFairRound core counts laws) cs
  PlaysRound-IsFairRound [] f = tt
  PlaysRound-IsFairRound (c ∷ cs) f = (f.0.0, PlaysRound-IsFairRound cs f.1)

  PlaysTo-IsFairTo : (o : Operation core) → PlaysTo o → IsFairTo core counts laws o
  PlaysTo-IsFairTo (request s) f = tt
  PlaysTo-IsFairTo (detach s) f = tt
  PlaysTo-IsFairTo (detach_next x y) f = tt
  PlaysTo-IsFairTo (cancel s fence) f = tt
  PlaysTo-IsFairTo (dequeue fuel c r) f = f.fair
  PlaysTo-IsFairTo (attach out b ws) f = f.0
  PlaysTo-IsFairTo (queue s i) f = tt
  PlaysTo-IsFairTo (allocate cs r) f = PlaysRound-IsFairRound cs f
  PlaysTo-IsFairTo (max_dequeued n) f = tt
  PlaysTo-IsFairTo (async b) f = tt
  PlaysTo-IsFairTo (timeout t) f = tt
  PlaysTo-IsFairTo (connects l api by_app out pid) f = tt
  PlaysTo-IsFairTo (disconnects api mode pid) f = tt
  PlaysTo-IsFairTo (generation n) f = tt
  PlaysTo-IsFairTo (allow b) f = tt
  PlaysTo-IsFairTo (refresh b) f = tt
  PlaysTo-IsFairTo (legacy b) f = tt
  PlaysTo-IsFairTo (sideband s) f = tt

  perform-Acts :
      (o : Operation core) (q : Queue BufferState)
      → Plays core counts wait_while_allocating
      → PlaysTo o
      → Balanced q
      → Acts o q
  unfolding set_generation_number allow_allocation set_auto_refresh set_legacy_buffer_drop
      set_sideband_stream
  perform-Acts (request s) q w f b = request_buffer-Moves core counts laws s q
  perform-Acts (detach s) q w f b = detach_buffer-Returns core counts laws s q
  perform-Acts (detach_next x y) q w f b = detach_next_buffer-Moves core counts laws x y q w b
  perform-Acts (cancel s fence) q w f b = cancel_buffer-Returns core counts laws s fence q b
  perform-Acts (dequeue fuel c r) q w f b = dequeue_buffer-Moves core counts laws fuel c r q w f b
  perform-Acts (attach out x ws) q w f b =
      attach_buffer-Moves core counts laws out x ws q w f.0 f.1 b
  perform-Acts (queue s i) q w f b = queue_buffer-Moves core counts laws s i q b
  perform-Acts (allocate cs r) q w f b = allocate_buffers-Moves core counts laws cs r q w f b
  perform-Acts (max_dequeued n) q w f b = elim f [ ]
  perform-Acts (async x) q w f b = elim f [ ]
  perform-Acts (timeout t) q w f b = elim f [ ]
  perform-Acts (connects l api by_app out pid) q w f b = elim f [ ]
  perform-Acts (disconnects api mode pid) q w f b = elim f [ ]
  perform-Acts (generation n) q w f b = stays (λ k. refl)
  perform-Acts (allow x) q w f b = stays (λ k. refl)
  perform-Acts (refresh x) q w f b = stays (λ k. refl)
  perform-Acts (legacy x) q w f b = stays (λ k. refl)
  perform-Acts (sideband s) q w f b = stays (λ k. refl)

  behind :
      (P : Queue BufferState → Type 0) (o : Option (Queue BufferState))
      → IsBalancedIf core counts laws o
      → ((q : Queue BufferState) → Balanced q → P q)
      → Behind P o
  behind P none h f = tt
  behind P (some q) h f = f q h

  -- For states that count their owners as documented, where three calls of BufferQueueCore keep
  -- the balance (the wait for an allocation, adjustAvailableSlotsLocked and freeAllBuffersLocked),
  -- and for a balanced queue without the shared buffer mode: in any run of the operations that
  -- request, dequeue, attach, queue, cancel, detach and allocate buffers, and of the setters that
  -- leave the number of slots, each operation does to the owners of the slots what its result
  -- says. dequeueBuffer or attachBuffer that gives a slot takes this slot from nobody to the
  -- producer. queueBuffer that sends passes the named slot of the producer to the queue, by which
  -- one other slot of the queue can go to nobody, and cancelBuffer or detachBuffer that returns
  -- NO_ERROR gives the named slot of the producer back; where these three refuse, every owner is
  -- the same. Otherwise only the consumer acts: it takes what is queued, and gives it back.
  -- Nothing is said of a call that crashes or of a search that runs out of fuel. While an
  -- operation waits or allocates, other threads keep the balance and act as the consumer only;
  -- while dequeueBuffer allocates they do not abandon the queue, and its allocation succeeds.
  pub perform-AllAct :
      (os : List (Operation core)) (q : Queue BufferState)
      → Plays core counts wait_while_allocating
      → All PlaysTo os
      → Balanced q
      → AllAct os q
  perform-AllAct [] q w f b = tt
  perform-AllAct (o ∷ os) q w f b = (
    perform-Acts o q w f.0 b,
    behind (AllAct os) (perform core o q)
        (perform-IsBalanced core counts laws o q (PlaysTo-IsFairTo o f.0) b)
        (λ r c. perform-AllAct os r w f.1 c),
  )
