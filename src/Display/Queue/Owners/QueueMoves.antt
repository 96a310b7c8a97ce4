-- ===== src/Display/Queue/Owners/QueueMoves.antt =====
-- queueBuffer of BufferQueueProducer.cpp, which holds the mutex once, in one step of the protocol of
-- the owners.
use osdi_artifact.Prelude.{
  ℕ, ◌==◌, ℤ, Bool, true, false, not, Option, none, some, ◌≡◌, refl, sym, arith, subst, if-keeps,
}
use osdi_artifact.Display.Queue.State.{Queue, Item, Core}
use osdi_artifact.Display.Queue.{in_range}
use osdi_artifact.Display.Queue.Counts.{Counts, IsBalanced, Balancing}
use osdi_artifact.Display.Queue.Balanced.{dequeued-alone}
use osdi_artifact.Display.Queue.Enqueue.{
  Input, Pushed, Queued, sends, queue_buffer, queue_fenced, queue_at, queue_marked, push, push_on,
  make_item, queue_slot, mark_shared, crop_fits, is_scaling_mode, freed, free_last, last_item,
  overwrite,
}
use osdi_artifact.Display.Queue.Pushed.{queue_slot-IsPending, last-alone, freed-view}
use osdi_artifact.Display.Queue.Sent.{mark_shared-id}
use osdi_artifact.Display.Queue.Owners.{queued, Same, give, Move, queues, sent, replaced, owner}
use osdi_artifact.Display.Queue.Owners.Moves.{Stays, dequeued-producer}

module _ (core : Core) (counts : Counts core) where
  open core use {BufferState, is_dequeued}
  open counts use {view}

  abbrev Balanced : Queue BufferState → Type 0
  Balanced = IsBalanced core counts

  queue_slot-Same :
      (n : ℕ) (i : Input) (fence : ℕ) (q : Queue BufferState)
      → Balanced q
      → is_dequeued (q.slots n).buffer_state ≡ true
      → Same (give (owner core counts q) n queued) (owner core counts (queue_slot core n i fence q))
  unfolding queue_slot
  queue_slot-Same n i fence q b h k =
      let (one, none_queued, none_acquired, active, absent, unfree) =
        dequeued-alone core counts n q b h in
      ground (arith, one, none_queued, none_acquired, counts.view-enqueue (q.slots n).buffer_state)

  -- The slot of the last item is freed, where it is not stale.
  overwrite_freed-replaces :
      (n : ℕ) (i : Input) (fence : ℕ) (last x : Item) (q : Queue BufferState)
      → last_item q.queue ≡ some last
      → last.is_stale ≡ false
      → Balanced q
      → is_dequeued (q.slots n).buffer_state ≡ true
      → Move (owner core counts q) (queues n (some last.slot)) (
          owner core counts
            (overwrite core last x (free_last core last.slot (queue_slot core n i fence q))).queue)
  unfolding free_last queue_slot
  overwrite_freed-replaces n i fence last x q e old b h =
      let p = queue_slot core n i fence q in
      let pending = queue_slot-IsPending core counts n i fence q b h in
      let l = last.slot in
      let same = queue_slot-Same n i fence q b h in
      let (one, undequeued, unacquired, active, absent, unfree, apart) =
        last-alone core counts n last p e old pending in
      let free = freed-view core counts n last p e old pending in
      let unshared =
        counts.is_shared-view (freed core p.shared_buffer_mode (p.slots l).buffer_state) in
      replaced n l (dequeued-producer core counts n q h)
        (ground (arith, same l, one, undequeued, apart))
        (λ k. ground (arith, same k, free, unshared, apart))

  -- The slot is queued in one step.
  abbrev Queues : ℕ → Queue BufferState → Queue BufferState → Type 0
  Queues n q r = (m : Option ℕ) × Move (owner core counts q) (queues n m) (owner core counts r)

  push_on-moves :
      (n : ℕ) (i : Input) (fence : ℕ) (o : Option Item) (x : Item) (q : Queue BufferState)
      → last_item q.queue ≡ o
      → Balanced q
      → is_dequeued (q.slots n).buffer_state ≡ true
      → Queues n q (push_on core o x (queue_slot core n i fence q)).queue
  push_on-moves n i fence none x q e b h =
      (none, sent n (dequeued-producer core counts n q h) (λ k. queue_slot-Same n i fence q b h k))
  push_on-moves n i fence (some last) x q e b h =
      let p = queue_slot core n i fence q in
      let queued_only : Queues n q p = (
        none,
        sent n (dequeued-producer core counts n q h) (λ k. queue_slot-Same n i fence q b h k),
      ) in
      if-keeps (λ (r : Pushed core). Queues n q r.queue) last.is_droppable
        (λ d.
          if-keeps (λ (r : Queue BufferState × Bool). Queues n q (overwrite core last x r).queue)
            last.is_stale (λ old. queued_only)
            (λ old. (some last.slot, overwrite_freed-replaces n i fence last x q e old b h)))
        (λ d. queued_only)

  -- Where queueBuffer sends, it has queued the slot `o`; where it refuses, none.
  abbrev pub QueuedMoves : Option ℕ → Queue BufferState → Queued core → Type 0
  QueuedMoves o p (Queued.refuses status q) = Stays core counts p q
  QueuedMoves o p (sends s q) =
      (n : ℕ) × (m : Option ℕ) × (o ≡ some n)
      × Move (owner core counts p) (queues n m) (owner core counts q)
  QueuedMoves o p Queued.crashes = Unit

  queue_marked-Moves :
      (n : ℕ) (i : Input) (fence : ℕ) (o : Option ℕ) (q : Queue BufferState)
      → Balanced q
      → is_dequeued (q.slots n).buffer_state ≡ true
      → QueuedMoves (some n) q (queue_marked core n i fence o q)
  unfolding push queue_slot
  queue_marked-Moves n i fence none q b h = tt
  queue_marked-Moves n i fence (some x) q b h =
      if-keeps (QueuedMoves (some n) q) (not (crop_fits core x i.crop)) (λ e k. refl)
        (λ e.
          let (m, step) =
            push_on-moves n i fence (last_item q.queue) (make_item core n i fence q) q refl b h in
          (n, m, refl, step))

  module _ (laws : Balancing core counts) where
    queue_at-Moves :
        (i : Input) (fence : ℕ) (q : Queue BufferState) (o : Option ℕ)
        → Balanced q
        → QueuedMoves o q (queue_at core i fence q o)
    queue_at-Moves i fence q none b = λ k. refl
    queue_at-Moves i fence q (some n) b =
        let q' = mark_shared core n q in
        if-keeps (QueuedMoves (some n) q) (not (is_dequeued (q.slots n).buffer_state)) (λ e k. refl)
          (λ e.
            if-keeps (QueuedMoves (some n) q) (not (q.slots n).request_buffer_called) (λ g k. refl)
              (λ g.
                subst
                  (λ p.
                    QueuedMoves (some n) q
                      (queue_marked core n i fence (p.slots n).graphic_buffer p))
                  (sym (mark_shared-id core counts laws n q b))
                  (queue_marked-Moves n i fence (q.slots n).graphic_buffer q b
                    (ground (arith, e)))))

    queue_fenced-Moves :
        (s : ℤ) (i : Input) (o : Option ℕ) (q : Queue BufferState)
        → Balanced q
        → QueuedMoves (in_range core.num_buffer_slots s) q (queue_fenced core s i o q)
    queue_fenced-Moves s i none q b = λ k. refl
    queue_fenced-Moves s i (some fence) q b =
        let P = QueuedMoves (in_range core.num_buffer_slots s) q in
        if-keeps P (not (is_scaling_mode core i.scaling_mode)) (λ e k. refl)
          (λ e.
            if-keeps P q.is_abandoned (λ g k. refl)
              (λ g.
                if-keeps P (q.connected_api == core.no_connected_api) (λ x k. refl)
                  (λ k. queue_at-Moves i fence q (in_range core.num_buffer_slots s) b)))

    pub queue_buffer-Moves :
        (s : ℤ) (i : Input) (q : Queue BufferState)
        → Balanced q
        → QueuedMoves (in_range core.num_buffer_slots s) q (queue_buffer core s i q)
    unfolding queue_buffer
    queue_buffer-Moves s i q b = queue_fenced-Moves s i i.fence q b
