-- ===== src/Display/Queue/Owners/Moves.antt =====
-- BufferQueueProducer.cpp: each change of a slot is a step of the protocol of the owners.
use osdi_artifact.Prelude.{ℕ, ◌+◌, ◌≤◌, true, Option, List, [], ◌∷◌, ◌≡◌, refl, arith, subst}
use osdi_artifact.Display.Queue.State.{Queue, Request, Core}
use osdi_artifact.Display.Queue.{mark_requested, detach_slot, detach_front, cancelled, cancel_slot}
use osdi_artifact.Display.Queue.Sets.{count}
use osdi_artifact.Display.Queue.Counts.{Counts, IsBalanced, IsLoose}
use osdi_artifact.Display.Queue.Dequeue.{drop_buffer, take_slot, dequeued_slot}
use osdi_artifact.Display.Queue.Attach.{attach_slot}
use osdi_artifact.Display.Queue.Balanced.{cancelled-view}
use osdi_artifact.Display.Queue.Owners.{
  nobody, producer, Same, Label, Move, takes, gives_back, taken, given, Run, owner,
}

module _ (core : Core) (counts : Counts core) where
  open core use {BufferState, is_dequeued}
  open counts use {view}

  abbrev Balanced : Queue BufferState → Type 0
  Balanced = IsBalanced core counts

  -- The producer does nothing in the protocol.
  abbrev pub Moves : Queue BufferState → Queue BufferState → Type 0
  Moves p q = Run (owner core counts p) [] (owner core counts q)

  -- In the course of which the producer does one thing.
  abbrev pub Does : Label → Queue BufferState → Queue BufferState → Type 0
  Does l p q = Run (owner core counts p) (l ∷ []) (owner core counts q)

  abbrev pub Stays : Queue BufferState → Queue BufferState → Type 0
  Stays p q = Same (owner core counts p) (owner core counts q)

  loose-nobody :
      (n : ℕ) (q : Queue BufferState) → IsLoose core counts n q → owner core counts q n ≡ nobody
  loose-nobody n q l = ground (arith, l.nowhere, l.balanced.active-total n)

  pub drop_buffer-Stays :
      (n : ℕ) (q : Queue BufferState) → IsLoose core counts n q → Stays q (drop_buffer core n q)
  unfolding drop_buffer
  drop_buffer-Stays n q l k = ground (arith, loose-nobody n q l, counts.view-clear (q.slots n))

  pub take_slot-takes :
      (n : ℕ) (r : Request) (q : Queue BufferState)
      → IsLoose core counts n q
      → Move (owner core counts q) (takes n) (owner core counts (take_slot core n r q).queue)
  unfolding take_slot dequeued_slot
  take_slot-takes n r q l =
      let b = l.balanced in
      taken n (loose-nobody n q l) (λ k.
        ground
          (arith, b.no_shared_mode, b.no_shared_slot, counts.view-dequeue (q.slots n).buffer_state))

  pub attach_slot-takes :
      (n b : ℕ) (q : Queue BufferState)
      → IsLoose core counts n q
      → Move (owner core counts q) (takes n) (owner core counts (attach_slot core n b q))
  unfolding attach_slot
  attach_slot-takes n b q l =
      taken n (loose-nobody n q l)
        (λ k. ground (arith, counts.view-attach_producer (q.slots n).buffer_state))

  pub dequeued-producer :
      (n : ℕ) (q : Queue BufferState)
      → is_dequeued (q.slots n).buffer_state ≡ true
      → owner core counts q n ≡ producer
  dequeued-producer n q h = ground (arith, h, counts.is_dequeued-view (q.slots n).buffer_state)

  pub detach_slot-gives_back :
      (n : ℕ) (q : Queue BufferState)
      → is_dequeued (q.slots n).buffer_state ≡ true
      → Move (owner core counts q) (gives_back n) (owner core counts (detach_slot core n q))
  detach_slot-gives_back n q h = given n (dequeued-producer n q h) (λ k. ground (
    arith,
    counts.view-clear
        (record (q.slots n) { buffer_state = core.detach_producer (q.slots n).buffer_state }),
  ))

  pub cancel_slot-gives_back :
      (n : ℕ) (fence : Option ℕ) (q : Queue BufferState)
      → Balanced q
      → is_dequeued (q.slots n).buffer_state ≡ true
      → Move (owner core counts q) (gives_back n) (owner core counts (cancel_slot core n fence q))
  unfolding cancel_slot
  cancel_slot-gives_back n fence q b h = given n (dequeued-producer n q h) (λ k. ground (
    arith,
    cancelled-view core counts n q b h,
    counts.is_shared-view (cancelled core q.shared_buffer_mode (q.slots n).buffer_state),
  ))

  pub mark_requested-Stays : (n : ℕ) (q : Queue BufferState) → Stays q (mark_requested core n q)
  mark_requested-Stays n q k = ground arith

  -- A slot that is in another list than the active ones has no owner.
  pub inactive-nobody :
      (n : ℕ) (q : Queue BufferState)
      → Balanced q
      → 1 ≤ count n q.free_slots + count n q.free_buffers
      → owner core counts q n ≡ nobody
  inactive-nobody n q b h = ground (arith, h, b.one_place n, b.active-total n)

  pub detach_front-Stays :
      (fs : List ℕ) (q : Queue BufferState)
      → fs ≡ q.free_buffers
      → Balanced q
      → Stays q (detach_front core fs q).done.queue
  unfolding detach_front
  detach_front-Stays [] q e b k = refl
  detach_front-Stays (n ∷ fs) q e b k =
      let front : 1 ≤ count n q.free_buffers = subst (λ l. 1 ≤ count n l) e (ground arith) in
      ground (arith, inactive-nobody n q b (omega (arith, front)), counts.view-clear (q.slots n))
