-- ===== src/Display/Queue/RoundTrip.antt =====
-- BufferQueueProducer.cpp: detachBuffer takes back what attachBuffer has done.
use osdi_artifact.Prelude.{
  ℕ, ◌<◌, ◌==◌, pos, eq_ℤ, true, false, not, ◌||◌, if◌then◌else◌, none, some, List, [], ◌∷◌, ◌≡◌,
  ◌∙◌, refl, sym, ap, arith, subst, if-keeps,
}
use osdi_artifact.Display.Queue.State.{Queue, Core, no_error, bad_value, Done}
use osdi_artifact.Display.Queue.{detach_buffer, detach_slot, slot_number, in_range, at_slot, fail}
use osdi_artifact.Display.Queue.Sets.{insert, erase, count}
use osdi_artifact.Display.Queue.Counts.{Counts, IsBalanced}
use osdi_artifact.Display.Queue.Wait.{
  FreeSlotCaller, Wake, take, round, refused, too_many_buffers, find_slot, free_for, get_free_slot,
  wait_for_free_slot,
}
use osdi_artifact.Display.Queue.Attach.{Attached, attach_slot, attach_found, attach_buffer}

erase-insert : (n : ℕ) (s : List ℕ) → count n s ≡ 0 → erase n (insert n s) ≡ s
unfolding erase insert
erase-insert n [] h = ground arith
erase-insert n (m ∷ ms) h = ground (arith, h, erase-insert n ms)

-- std::set holds its elements in rising order.
abbrev pub IsAscending : List ℕ → Type 0
IsAscending [] = Unit
IsAscending (n ∷ []) = Unit
IsAscending (n ∷ m ∷ ms) = (n < m) × IsAscending (m ∷ ms)

insert-first : (n : ℕ) (ns : List ℕ) → IsAscending (n ∷ ns) → insert n ns ≡ n ∷ ns
unfolding insert
insert-first n [] h = refl
insert-first n (m ∷ ms) h = ground (arith, h.0)

module _ (core : Core) (counts : Counts core) where
  open core use {BufferState, wait_while_allocating}
  open counts use {view}

  abbrev Balanced : Queue BufferState → Type 0
  Balanced = IsBalanced core counts

  -- What is there once the slot that attachBuffer gives is detached, for the queue `q` before.
  pub record IsRestored (n : ℕ) (q : Queue BufferState) (d : Done BufferState) : Type 0 where
    pub succeeds : d.status ≡ no_error
    pub free_slots_same : d.queue.free_slots ≡ q.free_slots
    pub free_buffers_same : d.queue.free_buffers ≡ q.free_buffers
    pub active_buffers_same : d.queue.active_buffers ≡ q.active_buffers
    pub queue_same : d.queue.queue ≡ q.queue
    pub others_same : (k : ℕ) → (n == k) ≡ false → d.queue.slots k ≡ q.slots k

  abbrev pub Restores : ℕ → Queue BufferState → Attached core → Type 0
  Restores n q (Attached.refuses status p) = ⊥
  Restores n q (Attached.gives m p) = (m ≡ n) × IsRestored n q (detach_buffer core (pos m) p)
  Restores n q (Attached.waits_on p) = ⊥

  abbrev taking : List ℕ → Queue BufferState → Queue BufferState
  taking ns q = record q { free_slots = ns }

  small-in_range :
      (n : ℕ) → n < core.num_buffer_slots → some n ≡ in_range core.num_buffer_slots (pos n)
  unfolding in_range
  small-in_range n h = ground (arith, h)

  -- What detachBuffer does with a slot in range.
  abbrev at_dequeued : Queue BufferState → ℕ → Done BufferState
  at_dequeued q n =
      if not (core.is_dequeued (q.slots n).buffer_state)
      then fail core bad_value q
      else if not (q.slots n).request_buffer_called
      then fail core bad_value q
      else (record {
        status = no_error;
        queue = detach_slot core n q;
        notified = true;
        released = q.consumer_listener;
        buf = none;
      })

  absent_active :
      (n : ℕ) (ns : List ℕ) (q : Queue BufferState)
      → q.free_slots ≡ n ∷ ns
      → Balanced q
      → count n q.active_buffers ≡ 0
  absent_active n ns q e b = ground (arith, b.one_place n, ap (count n) e)

  attached-is_dequeued :
      (n b : ℕ) (q : Queue BufferState)
      → core.is_dequeued ((attach_slot core n b q).slots n).buffer_state ≡ true
  unfolding attach_slot
  attached-is_dequeued n b q = ground (
    arith,
    counts.is_dequeued-view (core.attach_producer (q.slots n).buffer_state),
    counts.view-attach_producer (q.slots n).buffer_state,
  )

  detach_slot-IsRestored :
      (n b : ℕ) (ns : List ℕ) (q : Queue BufferState)
      → q.free_slots ≡ n ∷ ns
      → IsAscending (n ∷ ns)
      → Balanced q
      → IsRestored n q (record {
        status = no_error;
        queue = detach_slot core n (attach_slot core n b (taking ns q));
        notified = true;
        released = q.consumer_listener;
        buf = none;
      })
  unfolding attach_slot
  detach_slot-IsRestored n b ns q e up bal = record {
    succeeds = refl;
    free_slots_same = insert-first n ns up ∙ sym e;
    free_buffers_same = refl;
    active_buffers_same = erase-insert n q.active_buffers (absent_active n ns q e bal);
    queue_same = refl;
    others_same = λ k h. ground (arith, h);
  }

  detach-attach_slot :
      (n b : ℕ) (ns : List ℕ) (q : Queue BufferState)
      → q.free_slots ≡ n ∷ ns
      → IsAscending (n ∷ ns)
      → n < core.num_buffer_slots
      → q.is_abandoned ≡ false
      → (q.connected_api == core.no_connected_api) ≡ false
      → Balanced q
      → IsRestored n q (detach_buffer core (pos n) (attach_slot core n b (taking ns q)))
  unfolding detach_buffer attach_slot in_range
  detach-attach_slot n b ns q e up small open_queue connected bal =
      let P = IsRestored n q in
      let p = attach_slot core n b (taking ns q) in
      if-keeps P q.is_abandoned (λ h. absurd (ground (arith, h, open_queue)))
        (λ h.
          if-keeps P (q.connected_api == core.no_connected_api)
            (λ h. absurd (ground (arith, h, connected)))
            (λ h.
              if-keeps P (q.shared_buffer_mode || eq_ℤ (slot_number q.shared_buffer_slot) (pos n))
                (λ h. absurd (ground (arith, h, bal.no_shared_mode, bal.no_shared_slot)))
                (λ h.
                  subst (λ o. P (at_slot core o p (at_dequeued p))) (small-in_range n small)
                    (if-keeps P (not (core.is_dequeued (p.slots n).buffer_state))
                      (λ i. absurd (ground (arith, i, attached-is_dequeued n b (taking ns q))))
                      (λ i.
                        if-keeps P (not (p.slots n).request_buffer_called)
                          (λ j. absurd (ground (arith, j)))
                          (λ j. detach_slot-IsRestored n b ns q e up bal))))))

  -- The first round takes the first free slot.
  round-takes :
      (n : ℕ) (ns : List ℕ) (q : Queue BufferState)
      → q.free_slots ≡ n ∷ ns
      → refused core q ≡ none
      → too_many_buffers core q ≡ false
      → q.shared_buffer_mode ≡ false
      → round core FreeSlotCaller.attach q ≡ take n (taking ns q)
  unfolding round find_slot free_for get_free_slot
  round-takes n ns q e passes few mode = ground (arith, e, passes, few, mode)

  -- A queue that is open for the producer and has a free slot `n`, which is in range, the free slots
  -- in their order, with room for one more dequeued slot, and nothing to wait for.
  pub record IsOpen (n : ℕ) (ns : List ℕ) (x : ℕ) (q : Queue BufferState) : Type 0 where
    pub balanced : Balanced q
    pub first : q.free_slots ≡ n ∷ ns
    pub ascending : IsAscending (n ∷ ns)
    pub small : n < core.num_buffer_slots
    pub open_queue : q.is_abandoned ≡ false
    pub connected : (q.connected_api == core.no_connected_api) ≡ false
    pub passes : refused core q ≡ none
    pub few : too_many_buffers core q ≡ false
    pub generation : (q.generations x == q.generation_number) ≡ true
    pub no_allocation : wait_while_allocating q ≡ q

  found-Restores :
      (n x : ℕ) (ns : List ℕ) (ws : List (Wake core)) (q : Queue BufferState)
      → IsOpen n ns x q
      → Restores n q (attach_found core x (wait_for_free_slot core FreeSlotCaller.attach ws q))
  unfolding wait_for_free_slot
  found-Restores n x ns ws q o = by_wakes ws
    where
      restored : IsRestored n q (detach_buffer core (pos n) (attach_slot core n x (taking ns q)))
      restored =
          detach-attach_slot n x ns q o.first o.ascending o.small o.open_queue o.connected
            o.balanced

      takes : round core FreeSlotCaller.attach q ≡ take n (taking ns q)
      takes = round-takes n ns q o.first o.passes o.few o.balanced.no_shared_mode

      by_wakes :
          (vs : List (Wake core))
          → Restores n q (attach_found core x (wait_for_free_slot core FreeSlotCaller.attach vs q))
      by_wakes [] = rw takes (refl, restored)
      by_wakes (w ∷ vs) = rw takes (refl, restored)

  -- For a buffer of the queue's generation, on a balanced queue that is open for the producer, with room
  -- for one more dequeued slot, free slots in rising order and nothing to wait for: attachBuffer gives
  -- the first free slot, and detachBuffer of this slot then succeeds and leaves the free slots, the
  -- free buffers, the active slots, the queue of items and every other slot as they were.
  pub detach_buffer-attach_buffer :
      (n x : ℕ) (ns : List ℕ) (ws : List (Wake core)) (q : Queue BufferState)
      → IsOpen n ns x q
      → Restores n q (attach_buffer core true (some x) ws q)
  unfolding attach_buffer
  detach_buffer-attach_buffer n x ns ws q o =
      let P = Restores n q in
      if-keeps P q.is_abandoned (λ h. absurd (ground (arith, h, o.open_queue)))
        (λ h.
          if-keeps P (q.connected_api == core.no_connected_api)
            (λ h. absurd (ground (arith, h, o.connected)))
            (λ h.
              if-keeps P q.shared_buffer_mode
                (λ h. absurd (ground (arith, h, o.balanced.no_shared_mode)))
                (λ h.
                  if-keeps P (not (q.generations x == q.generation_number))
                    (λ h. absurd (ground (arith, h, o.generation)))
                    (λ h.
                      subst
                        (λ p. P (
                          attach_found core x (wait_for_free_slot core FreeSlotCaller.attach ws p)))
                        (sym o.no_allocation) (found-Restores n x ns ws q o)))))
