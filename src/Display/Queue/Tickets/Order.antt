-- ===== src/Display/Queue/Tickets/Order.antt =====
-- The tickets of queueBuffer of BufferQueueProducer.cpp: what a state of the threads keeps, and that a
-- buffer that is sent takes the next ticket.
use osdi_artifact.Prelude.{
  ℕ, ◌+◌, ◌≤◌, ◌<◌, ◌==◌, ℤ, Bool, true, false, not, ◌||◌, Option, none, some, List, [], ◌∷◌, ◌++◌,
  length, get_elem?, take, ◌≡◌, refl, subst, get_elem?-append, arith, if-keeps,
}
use osdi_artifact.Display.Queue.State.{Queue, Item, Core}
use osdi_artifact.Display.Queue.{in_range}
use osdi_artifact.Display.Queue.Enqueue.{
  Input, Pushed, Sent, Queued, sends, queue_buffer, queue_fenced, queue_at, queue_marked, push,
  push_on, make_item, queue_slot, mark_shared, crop_fits, is_scaling_mode, freed, free_last,
  last_item, overwrite, send,
}
use osdi_artifact.Display.Queue.Dequeue.{is_first_shared}
use osdi_artifact.Display.Queue.Found.{All}
use osdi_artifact.Display.Queue.Tickets.{Threads}

module _ (core : Core) where
  open core use {BufferState}

  -- A ticket is the place of its thread among those that have queued.
  abbrev pub Placed : List (Sent core) → Sent core → Type 0
  Placed queued s = get_elem? queued s.ticket ≡ some s

  abbrev pub has_ticket : ℕ → List (Sent core) → Bool
  has_ticket k [] = false
  has_ticket k (s ∷ ss) = s.ticket == k || has_ticket k ss

  pub record IsOrdered (t : Threads core) : Type 0 where
    pub counted : length t.queued ≡ t.queue.next_callback_ticket
    pub placed : All (Placed t.queued) t.waiting
    pub prefix : t.called ≡ take t.callbacks.current_callback_ticket t.queued
    pub behind : t.callbacks.current_callback_ticket ≤ t.queue.next_callback_ticket
    pub present :
        (k : ℕ)
        → t.callbacks.current_callback_ticket ≤ k
        → k < t.queue.next_callback_ticket
        → has_ticket k t.waiting ≡ true

  -- A buffer that is sent takes the next ticket.
  abbrev pub Takes : ℕ → Queued core → Type 0
  Takes n (Queued.refuses status q) = Unit
  Takes n (sends s q) = (s.ticket ≡ n) × (q.next_callback_ticket ≡ n + 1)
  Takes n Queued.crashes = Unit

  abbrev Leaves : ℕ → Queue BufferState → Type 0
  Leaves n q = q.next_callback_ticket ≡ n

  free_last-Leaves :
      (m : ℕ) (q : Queue BufferState) → Leaves q.next_callback_ticket (free_last core m q).0
  unfolding free_last
  free_last-Leaves m q =
      if-keeps (λ (p : Queue BufferState × Bool). Leaves q.next_callback_ticket p.0)
        (not (core.is_shared (freed core q.shared_buffer_mode (q.slots m).buffer_state)))
        (λ e. refl) (λ e. refl)

  push_on-Leaves :
      (o : Option Item) (x : Item) (q : Queue BufferState)
      → Leaves q.next_callback_ticket (push_on core o x q).queue
  push_on-Leaves none x q = refl
  push_on-Leaves (some last) x q =
      if-keeps (λ (p : Pushed core). Leaves q.next_callback_ticket p.queue) last.is_droppable
        (λ d.
          if-keeps
            (λ (p : Queue BufferState × Bool).
              Leaves q.next_callback_ticket (overwrite core last x p).queue)
            last.is_stale (λ e. refl) (λ e. free_last-Leaves last.slot q))
        (λ d. refl)

  send-Takes : (n m fence : ℕ) (p : Pushed core) → Leaves m p.queue → Takes m (send core n fence p)
  send-Takes n m fence p h = (h, rw h)

  queue_marked-Takes :
      (n : ℕ) (i : Input) (fence : ℕ) (o : Option ℕ) (q : Queue BufferState)
      → Takes q.next_callback_ticket (queue_marked core n i fence o q)
  unfolding push queue_slot
  queue_marked-Takes n i fence none q = tt
  queue_marked-Takes n i fence (some b) q =
      if-keeps (Takes q.next_callback_ticket) (not (crop_fits core b i.crop)) (λ e. tt)
        (λ e.
          send-Takes n q.next_callback_ticket fence
            (push core (make_item core n i fence q) (queue_slot core n i fence q))
            (push_on-Leaves (last_item q.queue) (make_item core n i fence q)
              (queue_slot core n i fence q)))

  mark_shared-Leaves :
      (n : ℕ) (q : Queue BufferState) → Leaves q.next_callback_ticket (mark_shared core n q)
  unfolding mark_shared
  mark_shared-Leaves n q =
      if-keeps (Leaves q.next_callback_ticket) (is_first_shared core q) (λ e. refl) (λ e. refl)

  queue_at-Takes :
      (i : Input) (fence : ℕ) (q : Queue BufferState) (o : Option ℕ)
      → Takes q.next_callback_ticket (queue_at core i fence q o)
  queue_at-Takes i fence q none = tt
  queue_at-Takes i fence q (some n) =
      let P = Takes q.next_callback_ticket in
      let q' = mark_shared core n q in
      if-keeps P (not (core.is_dequeued (q.slots n).buffer_state)) (λ e. tt)
        (λ e.
          if-keeps P (not (q.slots n).request_buffer_called) (λ g. tt)
            (λ g.
              subst (λ m. Takes m (queue_marked core n i fence (q'.slots n).graphic_buffer q'))
                (mark_shared-Leaves n q)
                (queue_marked-Takes n i fence (q'.slots n).graphic_buffer q')))

  queue_fenced-Takes :
      (s : ℤ) (i : Input) (o : Option ℕ) (q : Queue BufferState)
      → Takes q.next_callback_ticket (queue_fenced core s i o q)
  queue_fenced-Takes s i none q = tt
  queue_fenced-Takes s i (some fence) q =
      let P = Takes q.next_callback_ticket in
      if-keeps P (not (is_scaling_mode core i.scaling_mode)) (λ e. tt)
        (λ e.
          if-keeps P q.is_abandoned (λ g. tt)
            (λ g.
              if-keeps P (q.connected_api == core.no_connected_api) (λ k. tt)
                (λ k. queue_at-Takes i fence q (in_range core.num_buffer_slots s))))

  pub queue_buffer-Takes :
      (slot : ℤ) (i : Input) (s : Sent core) (q q' : Queue BufferState)
      → queue_buffer core slot i q ≡ sends s q'
      → Takes q.next_callback_ticket (sends s q')
  unfolding queue_buffer
  queue_buffer-Takes slot i s q q' e =
      subst (Takes q.next_callback_ticket) e (queue_fenced-Takes slot i i.fence q)

  pub Placed-append :
      (queued : List (Sent core)) (ss : List (Sent core)) (s : Sent core)
      → All (Placed queued) ss
      → All (Placed (queued ++ s ∷ [])) ss
  Placed-append queued [] s h = tt
  Placed-append queued (x ∷ xs) s h =
      (get_elem?-append queued (s ∷ []) x.ticket x h.0, Placed-append queued xs s h.1)

  pub All-append :
      (queued xs ys : List (Sent core))
      → All (Placed queued) xs
      → All (Placed queued) ys
      → All (Placed queued) (xs ++ ys)
  All-append queued [] ys h k = k
  All-append queued (x ∷ xs) ys h k = (h.0, All-append queued xs ys h.1 k)

  pub All-split :
      (queued xs ys : List (Sent core)) (s : Sent core)
      → All (Placed queued) (xs ++ s ∷ ys)
      → All (Placed queued) (xs ++ ys) × Placed queued s
  All-split queued [] ys s h = (h.1, h.0)
  All-split queued (x ∷ xs) ys s h =
      let (rest, placed) = All-split queued xs ys s h.1 in ((h.0, rest), placed)

  pub has_ticket-append :
      (k : ℕ) (xs : List (Sent core)) (s : Sent core)
      → has_ticket k (xs ++ s ∷ []) ≡ (has_ticket k xs || s.ticket == k)
  has_ticket-append k [] s = ground arith
  has_ticket-append k (x ∷ xs) s = ground (arith, has_ticket-append k xs s)

  pub has_ticket-without :
      (k : ℕ) (xs ys : List (Sent core)) (s : Sent core)
      → (s.ticket == k) ≡ false
      → has_ticket k (xs ++ s ∷ ys) ≡ has_ticket k (xs ++ ys)
  has_ticket-without k [] ys s h = ground (arith, h)
  has_ticket-without k (x ∷ xs) ys s h = ground (arith, has_ticket-without k xs ys s h)
