-- ===== src/Display/Queue/Kept.antt =====
-- BufferQueueProducer.cpp: dequeueBuffer keeps the balance, where its allocation succeeds
-- and the queue is not abandoned meanwhile.
use osdi_artifact.Prelude.{
  ℕ, zero, suc, ◌==◌, false, not, ◌&&◌, ◌||◌, Option, none, some, List, ◌≡◌, refl, arith, if-keeps,
}
use osdi_artifact.Display.Queue.State.{Queue, Request, Core, Status}
use osdi_artifact.Display.Queue.Counts.{Counts, IsBalanced, IsLoose, Keeps, Balancing}
use osdi_artifact.Display.Queue.Balanced.{drop_buffer-IsBalanced, take_slot-IsBalanced}
use osdi_artifact.Display.Queue.Wait.{refused, FreeSlotCaller, Wake, Waited, failed, found, blocked}
use osdi_artifact.Display.Queue.Dequeue.{
  Search, without_allocation, on_found, search_slot, drop_buffer, is_slot, Second, on_search,
  take_if_fits, returned, taken, waits, crashed, no_fuel, slot, stuck, faulted, out_of_fuel,
  complete, dequeue_second, await_allocation, take_slot, made, hand_over, Dequeued, gives, waits_on,
  crashes, exhausted, Course, dequeue_buffer, on_second, on_hand_over, Taken, is_empty,
}
use osdi_artifact.Display.Queue.Found.{Fair, WaitedKeeps, wait_for_free_slot-Keeps}

module _ (core : Core) (counts : Counts core) (laws : Balancing core counts) where
  open core use {BufferState, needs_reallocation, wait_while_allocating, is_dequeued}

  abbrev Balanced : Queue BufferState → Type 0
  Balanced = IsBalanced core counts

  abbrev pub SearchKeeps : Search core → Type 0
  SearchKeeps (Search.refused status q) = Balanced q
  SearchKeeps (slot n q) = IsLoose core counts n q × (q.is_abandoned ≡ false)
  SearchKeeps (stuck q) = Balanced q
  SearchKeeps faulted = Unit
  SearchKeeps out_of_fuel = Unit

  without_allocation-Keeps :
      (r : Request) (n : ℕ) (q : Queue BufferState) (o : Option ℕ) (next : Search core)
      → IsLoose core counts n q
      → q.is_abandoned ≡ false
      → SearchKeeps next
      → SearchKeeps (without_allocation core r n q o next)
  without_allocation-Keeps r n q none next l a k = tt
  without_allocation-Keeps r n q (some b) next l a k =
      if-keeps SearchKeeps (needs_reallocation b r)
        (λ e. if-keeps SearchKeeps (is_slot q.shared_buffer_slot n) (λ f. l.balanced) (λ f. k))
        (λ e. (l, a))

  pub passes-not_abandoned :
      (q : Queue BufferState) → refused core q ≡ none → q.is_abandoned ≡ false
  unfolding refused
  passes-not_abandoned q h = ground arith

  on_found-Keeps :
      (again : List (Wake core) → Queue BufferState → Search core) (r : Request) (w : Waited core)
      → ((ws : List (Wake core)) (q : Queue BufferState)
          → Fair core counts ws
          → Balanced q
          → SearchKeeps (again ws q))
      → WaitedKeeps core counts w
      → SearchKeeps (on_found core again r w)
  on_found-Keeps again r (failed status q) k h = h
  on_found-Keeps again r (blocked q) k h = h
  on_found-Keeps again r (found n q ws) k h =
      let open_queue = passes-not_abandoned q h.1 in
      if-keeps SearchKeeps q.allow_allocation (λ e. (h.0, open_queue))
        (λ e.
          without_allocation-Keeps r n q (q.slots n).graphic_buffer _ h.0 open_queue
            (k ws (drop_buffer core n q) h.2 (drop_buffer-IsBalanced core counts n q h.0)))

  pub search_slot-Keeps :
      (fuel : ℕ) (r : Request) (ws : List (Wake core)) (q : Queue BufferState)
      → Fair core counts ws
      → Balanced q
      → SearchKeeps (search_slot core fuel r ws q)
  unfolding search_slot
  search_slot-Keeps zero r ws q f b = tt
  search_slot-Keeps (suc fuel) r ws q f b =
      on_found-Keeps (search_slot core fuel r) r _ (search_slot-Keeps fuel r)
        (wait_for_free_slot-Keeps core counts FreeSlotCaller.dequeue ws q f b)

  -- A change of the fields that the balance does not read.
  abbrev pub SecondKeeps : Second core → Type 0
  SecondKeeps (returned status q) = Balanced q
  SecondKeeps (taken n t) = Balanced t.queue × (t.queue.is_abandoned ≡ false)
  SecondKeeps (waits q) = Balanced q
  SecondKeeps crashed = Unit
  SecondKeeps no_fuel = Unit

  take_if_fits-Keeps :
      (n : ℕ) (r : Request) (q : Queue BufferState) (o : Option ℕ)
      → IsLoose core counts n q
      → q.is_abandoned ≡ false
      → SecondKeeps (take_if_fits core n r q o)
  unfolding take_slot
  take_if_fits-Keeps n r q none l a =
      if-keeps SecondKeeps (is_slot q.shared_buffer_slot n) (λ e. tt)
        (λ e. (take_slot-IsBalanced core counts n r q l, a))
  take_if_fits-Keeps n r q (some b) l a =
      if-keeps SecondKeeps (is_slot q.shared_buffer_slot n && needs_reallocation b r)
        (λ e. l.balanced) (λ e. (take_slot-IsBalanced core counts n r q l, a))

  on_search-Keeps :
      (r : Request) (s : Search core) → SearchKeeps s → SecondKeeps (on_search core r s)
  on_search-Keeps r (Search.refused status q) h = h
  on_search-Keeps r (slot n q) h = take_if_fits-Keeps n r q (q.slots n).graphic_buffer h.0 h.1
  on_search-Keeps r (stuck q) h = h
  on_search-Keeps r faulted h = tt
  on_search-Keeps r out_of_fuel h = tt

  -- The fields beside the slots and the lists do not matter.
  pub same_lists :
      (p q : Queue BufferState)
      → p.slots ≡ q.slots
      → p.free_slots ≡ q.free_slots
      → p.free_buffers ≡ q.free_buffers
      → p.active_buffers ≡ q.active_buffers
      → p.queue ≡ q.queue
      → p.shared_buffer_mode ≡ q.shared_buffer_mode
      → p.shared_buffer_slot ≡ q.shared_buffer_slot
      → Balanced p
      → Balanced q
  same_lists p q a b c d e f g h = record {
    one_place = λ m. ground (arith, h.one_place m);
    active-total = λ m. rw (← a, ← d) (h.active-total m);
    items-queues = λ m. rw (← a, ← e) (h.items-queues m);
    not_shared = λ m. rw (← a) (h.not_shared m);
    no_shared_mode = rw (← f) h.no_shared_mode;
    no_shared_slot = rw (← g) h.no_shared_slot;
  }

  pub await_allocation-IsBalanced :
      (q : Queue BufferState) → Balanced q → Balanced (await_allocation core q)
  unfolding await_allocation
  await_allocation-IsBalanced q b =
      if-keeps Balanced (is_empty q.free_buffers && q.is_allocating)
        (λ e.
          same_lists _ _ refl refl refl refl refl refl refl
            (laws.wait-IsBalanced _ (same_lists q _ refl refl refl refl refl refl refl b)))
        (λ e. b)

  pub dequeue_second-Keeps :
      (fuel : ℕ) (r : Request) (ws : List (Wake core)) (q : Queue BufferState)
      → Fair core counts ws
      → Balanced q
      → SecondKeeps (dequeue_second core fuel r ws q)
  unfolding dequeue_second
  dequeue_second-Keeps fuel r ws q f b =
      let q' = await_allocation core q in
      let r' = complete core r q' in
      on_search-Keeps r' (search_slot core fuel r' ws q')
        (search_slot-Keeps fuel r' ws q' f (await_allocation-IsBalanced q b))

  hand_over-IsBalanced :
      (n b : ℕ) (q : Queue BufferState)
      → q.is_abandoned ≡ false
      → Balanced q
      → Balanced (hand_over core n (made b) q).1
  unfolding hand_over
  hand_over-IsBalanced n b q e h =
      if-keeps (λ (r : Option Status × Queue BufferState). Balanced r.1) q.is_abandoned
        (λ a. absurd (ground (arith, a, e)))
        (λ a. record {
          one_place = λ m. h.one_place m;
          active-total = λ m. ground (arith, h.active-total m);
          items-queues = λ m. ground (arith, h.items-queues m);
          not_shared = λ m. ground (arith, h.not_shared m);
          no_shared_mode = h.no_shared_mode;
          no_shared_slot = h.no_shared_slot;
        })

  abbrev pub DequeuedKeeps : Dequeued core → Type 0
  DequeuedKeeps (Dequeued.refuses status q) = Balanced q
  DequeuedKeeps (gives a q) = Balanced q
  DequeuedKeeps (waits_on q) = Balanced q
  DequeuedKeeps crashes = Unit
  DequeuedKeeps exhausted = Unit

  on_hand_over-Keeps :
      (n : ℕ) (t : Taken core) (p : Option Status × Queue BufferState)
      → Balanced p.1
      → DequeuedKeeps (on_hand_over core n t p)
  on_hand_over-Keeps n t (none, q) h = h
  on_hand_over-Keeps n t (some status, q) h = h

  -- A course in which other threads keep the balance, and the buffer that is needed is allocated
  -- while the queue is not abandoned.
  pub record IsFair (c : Course core) : Type 0 where
    pub before_keeps : Keeps core counts c.before
    pub wakes_keep : Fair core counts c.wakes
    pub meanwhile_keeps : Keeps core counts c.meanwhile
    pub buffer : ℕ
    pub allocates : c.allocation ≡ made buffer
    pub stays :
        (q : Queue BufferState) → q.is_abandoned ≡ false → (c.meanwhile q).is_abandoned ≡ false

  on_second-Keeps :
      (c : Course core) (s : Second core)
      → IsFair c
      → SecondKeeps s
      → DequeuedKeeps (on_second core c.allocation c.meanwhile s)
  on_second-Keeps c (returned status q) f h = h
  on_second-Keeps c (taken n t) f h =
      if-keeps DequeuedKeeps t.reallocates
        (λ e. on_hand_over-Keeps n t _ (
          rw f.allocates (
            hand_over-IsBalanced n f.buffer (c.meanwhile t.queue) (f.stays t.queue h.1)
              (f.meanwhile_keeps t.queue h.0))))
        (λ e. h.0)
  on_second-Keeps c (waits q) f h = h
  on_second-Keeps c crashed f h = tt
  on_second-Keeps c no_fuel f h = tt

  pub dequeue_buffer-Keeps :
      (fuel : ℕ) (c : Course core) (r : Request) (q : Queue BufferState)
      → IsFair c
      → Balanced q
      → DequeuedKeeps (dequeue_buffer core fuel c r q)
  unfolding dequeue_buffer
  dequeue_buffer-Keeps fuel c r q f b =
      if-keeps DequeuedKeeps q.is_abandoned (λ e. b)
        (λ e.
          if-keeps DequeuedKeeps (q.connected_api == core.no_connected_api) (λ g. b)
            (λ g.
              if-keeps DequeuedKeeps
                (not (r.width == 0) && r.height == 0 || r.width == 0 && not (r.height == 0))
                (λ k. b)
                (λ k. on_second-Keeps c (dequeue_second core fuel r c.wakes (c.before q)) f (
                  dequeue_second-Keeps fuel r c.wakes (c.before q) f.wakes_keep
                    (f.before_keeps q b)))))
