-- ===== src/Display/Queue/Balanced.antt =====
-- BufferQueueProducer.cpp: each change of a slot keeps the balance of lists and counts.
use osdi_artifact.Prelude.{ℕ, ◌≤◌, true, false, Option, List, [], ◌∷◌, ◌≡◌, arith, subst}
use osdi_artifact.Display.Queue.State.{Queue, Request, Core}
use osdi_artifact.Display.Queue.{mark_requested, detach_slot, detach_front, cancelled, cancel_slot}
use osdi_artifact.Display.Queue.Sets.{
  count, count-insert, count-erase, count-remove, count-push_back,
}
use osdi_artifact.Display.Queue.Counts.{total, Counts, IsBalanced, IsLoose}
use osdi_artifact.Display.Queue.Dequeue.{drop_buffer, take_slot, dequeued_slot}
use osdi_artifact.Display.Queue.Attach.{attach_slot}

module _ (core : Core) (counts : Counts core) where
  open core use {BufferState, is_dequeued, clear_buffer_slot}
  open counts use {view}

  abbrev Balanced : Queue BufferState → Type 0
  Balanced = IsBalanced core counts

  -- A slot that is in no list has no owner.
  loose-total :
      (n : ℕ) (q : Queue BufferState)
      → IsLoose core counts n q
      → (total (view (q.slots n).buffer_state) ≡ 0)
        × (count n q.free_slots ≡ 0)
        × (count n q.active_buffers ≡ 0)
  loose-total n q l = ground (arith, l.nowhere, l.balanced.active-total n)

  pub drop_buffer-IsBalanced :
      (n : ℕ) (q : Queue BufferState) → IsLoose core counts n q → Balanced (drop_buffer core n q)
  unfolding drop_buffer
  drop_buffer-IsBalanced n q l =
      let b = l.balanced in
      let (none_left, absent, inactive) = loose-total n q l in
      let cleared = counts.view-clear (q.slots n) in
      record {
        one_place =
            λ m. ground (arith, b.one_place m, l.nowhere, count-insert m n q.free_slots absent);
        active-total = λ m. ground (arith, b.active-total m, none_left, inactive, cleared);
        items-queues = λ m. ground (arith, b.items-queues m, none_left, cleared);
        not_shared = λ m. ground (arith, b.not_shared m, cleared);
        no_shared_mode = b.no_shared_mode;
        no_shared_slot = b.no_shared_slot;
      }

  pub take_slot-IsBalanced :
      (n : ℕ) (r : Request) (q : Queue BufferState)
      → IsLoose core counts n q
      → Balanced (take_slot core n r q).queue
  unfolding take_slot dequeued_slot
  take_slot-IsBalanced n r q l =
      let b = l.balanced in
      let (none_left, absent, inactive) = loose-total n q l in
      let mode = b.no_shared_mode in
      let shared = b.no_shared_slot in
      let state = (q.slots n).buffer_state in
      let dequeued = counts.view-dequeue state in
      record {
        one_place = λ m.
            ground
              (arith, b.one_place m, l.nowhere, shared, count-insert m n q.active_buffers inactive);
        active-total = λ m. ground (
          arith,
          b.active-total m,
          none_left,
          inactive,
          mode,
          shared,
          dequeued,
          count-insert m n q.active_buffers inactive,
        );
        items-queues = λ m. ground (arith, b.items-queues m, mode, dequeued);
        not_shared = λ m. ground (arith, b.not_shared m, mode, dequeued);
        no_shared_mode = mode;
        no_shared_slot = ground (arith, mode, shared);
      }

  pub attach_slot-IsBalanced :
      (n b : ℕ) (q : Queue BufferState)
      → IsLoose core counts n q
      → Balanced (attach_slot core n b q)
  unfolding attach_slot
  attach_slot-IsBalanced n buffer q l =
      let b = l.balanced in
      let (none_left, absent, inactive) = loose-total n q l in
      let attached = counts.view-attach_producer (q.slots n).buffer_state in
      record {
        one_place = λ m.
            ground (arith, b.one_place m, l.nowhere, count-insert m n q.active_buffers inactive);
        active-total = λ m. ground (
          arith,
          b.active-total m,
          none_left,
          inactive,
          attached,
          count-insert m n q.active_buffers inactive,
        );
        items-queues = λ m. ground (arith, b.items-queues m, attached);
        not_shared = λ m. ground (arith, b.not_shared m, attached);
        no_shared_mode = b.no_shared_mode;
        no_shared_slot = b.no_shared_slot;
      }

  pub mark_requested-IsBalanced :
      (n : ℕ) (q : Queue BufferState) → Balanced q → Balanced (mark_requested core n q)
  mark_requested-IsBalanced n q b = record {
    one_place = λ m. b.one_place m;
    active-total = λ m. ground (arith, b.active-total m);
    items-queues = λ m. ground (arith, b.items-queues m);
    not_shared = λ m. ground (arith, b.not_shared m);
    no_shared_mode = b.no_shared_mode;
    no_shared_slot = b.no_shared_slot;
  }

  -- A slot that is dequeued is active and has no other owner.
  pub dequeued-alone :
      (n : ℕ) (q : Queue BufferState)
      → Balanced q
      → is_dequeued (q.slots n).buffer_state ≡ true
      → let v = view (q.slots n).buffer_state in
        (v.dequeues ≡ 1)
        × (v.queues ≡ 0)
        × (v.acquires ≡ 0)
        × (count n q.active_buffers ≡ 1)
        × (count n q.free_slots ≡ 0)
        × (count n q.free_buffers ≡ 0)
  dequeued-alone n q b h =
      ground
        (arith, b.one_place n, b.active-total n, counts.is_dequeued-view (q.slots n).buffer_state)

  pub detach_slot-IsBalanced :
      (n : ℕ) (q : Queue BufferState)
      → Balanced q
      → is_dequeued (q.slots n).buffer_state ≡ true
      → Balanced (detach_slot core n q)
  detach_slot-IsBalanced n q b h =
      let (one, none_queued, none_acquired, active, absent, unfree) = dequeued-alone n q b h in
      let cleared =
        counts.view-clear
          (record (q.slots n) { buffer_state = core.detach_producer (q.slots n).buffer_state }) in
      record {
        one_place = λ m. ground (
          arith,
          b.one_place m,
          active,
          unfree,
          count-insert m n q.free_slots absent,
          count-erase m n q.active_buffers,
        );
        active-total = λ m.
            ground (arith, b.active-total m, active, cleared, count-erase m n q.active_buffers);
        items-queues = λ m. ground (arith, b.items-queues m, none_queued, cleared);
        not_shared = λ m. ground (arith, b.not_shared m, cleared);
        no_shared_mode = b.no_shared_mode;
        no_shared_slot = b.no_shared_slot;
      }

  pub cancelled-view :
      (n : ℕ) (q : Queue BufferState)
      → Balanced q
      → is_dequeued (q.slots n).buffer_state ≡ true
      → view (cancelled core q.shared_buffer_mode (q.slots n).buffer_state)
        ≡ record { dequeues = 0; queues = 0; acquires = 0; shared = false }
  unfolding cancelled
  cancelled-view n q b h =
      let s = (q.slots n).buffer_state in
      let (one, none_queued, none_acquired, active, absent, unfree) = dequeued-alone n q b h in
      ground (
        arith,
        b.not_shared n,
        one,
        none_queued,
        none_acquired,
        counts.view-cancel s,
        counts.view-set_shared false (core.cancel s),
      )

  pub cancel_slot-IsBalanced :
      (n : ℕ) (fence : Option ℕ) (q : Queue BufferState)
      → Balanced q
      → is_dequeued (q.slots n).buffer_state ≡ true
      → Balanced (cancel_slot core n fence q)
  unfolding cancel_slot
  cancel_slot-IsBalanced n fence q b h =
      let state = cancelled core q.shared_buffer_mode (q.slots n).buffer_state in
      let (one, none_queued, none_acquired, active, absent, unfree) = dequeued-alone n q b h in
      let free = cancelled-view n q b h in
      let unshared = counts.is_shared-view state in
      record {
        one_place = λ m. ground (
          arith,
          b.one_place m,
          active,
          absent,
          free,
          unshared,
          count-push_back m n q.free_buffers,
          count-erase m n q.active_buffers,
        );
        active-total = λ m.
            ground
              (arith, b.active-total m, active, free, unshared, count-erase m n q.active_buffers);
        items-queues = λ m. ground (arith, b.items-queues m, none_queued, free, unshared);
        not_shared = λ m. ground (arith, b.not_shared m, free, unshared);
        no_shared_mode = ground (arith, b.no_shared_mode);
        no_shared_slot = ground (arith, b.no_shared_slot);
      }

  pub detach_front-IsBalanced :
      (fs : List ℕ) (q : Queue BufferState)
      → fs ≡ q.free_buffers
      → Balanced q
      → Balanced (detach_front core fs q).done.queue
  unfolding detach_front
  detach_front-IsBalanced [] q e b = b
  detach_front-IsBalanced (n ∷ fs) q e b =
      let cleared = counts.view-clear (q.slots n) in
      let front : 1 ≤ count n q.free_buffers = subst (λ l. 1 ≤ count n l) e (ground arith) in
      let absent : count n q.free_slots ≡ 0 = omega (arith, front, b.one_place n) in
      let inactive : count n q.active_buffers ≡ 0 = omega (arith, front, b.one_place n) in
      record {
        one_place = λ m. ground (
          arith,
          b.one_place m,
          front,
          absent,
          inactive,
          count-insert m n q.free_slots absent,
          count-remove m n q.free_buffers,
        );
        active-total = λ m. ground (arith, b.active-total m, inactive, cleared);
        items-queues = λ m. ground (arith, b.items-queues m, b.active-total n, inactive, cleared);
        not_shared = λ m. ground (arith, b.not_shared m, cleared);
        no_shared_mode = b.no_shared_mode;
        no_shared_slot = b.no_shared_slot;
      }
