-- ===== src/Display/Queue/Enough.antt =====
-- dequeueBuffer of BufferQueueProducer.cpp: the loop that looks for a slot ends.
use osdi_artifact.Prelude.{
  ℕ, zero, suc, ◌+◌, ◌≤◌, ◌==◌, Bool, true, false, not, ◌&&◌, ◌||◌, Option, none, some, List, ◌≡◌,
  ◌≢◌, refl, arith, if-keeps,
}
use osdi_artifact.Display.Queue.State.{Queue, Request, Core, Status}
use osdi_artifact.Display.Queue.Wait.{Wake, Waited, failed, found, blocked}
use osdi_artifact.Display.Queue.Dequeue.{
  Search, without_allocation, on_found, search_slot, drop_buffer, is_slot, Second, on_search,
  take_if_fits, slot, stuck, faulted, out_of_fuel, complete, dequeue_second, await_allocation,
  no_fuel, Dequeued, exhausted, Course, dequeue_buffer, on_second, returned, taken, waits, crashed,
  on_hand_over, Allocation, Taken, hand_over,
}
use osdi_artifact.Display.Queue.Found.{All}
use osdi_artifact.Display.Queue.Fewer.{
  left, IsBounded, goes_on, Fewer, WaitedFewer, wait_for_free_slot-Fewer,
}

module _ (core : Core) (bound : ℕ) where
  open core use {BufferState, needs_reallocation}

  Fewer-true : (rest m : ℕ) (b : Bool) → b ≡ true → Fewer core bound rest b m → rest + 1 ≤ m
  Fewer-true rest m true e h = h
  Fewer-true rest m false e h = absurd (ground arith)

  abbrev Ends : Search core → Type 0
  Ends s = s ≢ out_of_fuel

  without_allocation-Ends :
      (r : Request) (n : ℕ) (q : Queue BufferState) (o : Option ℕ) (next : Search core)
      → (is_slot q.shared_buffer_slot n ≡ false → Ends next)
      → Ends (without_allocation core r n q o next)
  without_allocation-Ends r n q none next k = λ h. absurd (ground arith)
  without_allocation-Ends r n q (some b) next k =
      if-keeps Ends (needs_reallocation b r)
        (λ e. if-keeps Ends (is_slot q.shared_buffer_slot n) (λ f h. absurd (ground arith)) k)
        (λ e h. absurd (ground arith))

  on_found-Ends :
      (again : List (Wake core) → Queue BufferState → Search core) (r : Request) (m : ℕ)
      (w : Waited core)
      → ((ws : List (Wake core)) (q : Queue BufferState)
          → All (IsBounded core bound) ws
          → left core bound ws q + 1 ≤ m
          → Ends (again ws q))
      → WaitedFewer core bound m w
      → Ends (on_found core again r w)
  unfolding drop_buffer
  on_found-Ends again r m (failed status q) k h = λ g. absurd (ground arith)
  on_found-Ends again r m (blocked q) k h = λ g. absurd (ground arith)
  on_found-Ends again r m (found n q ws) k h =
      if-keeps Ends q.allow_allocation (λ e g. absurd (ground arith))
        (λ e. without_allocation-Ends r n q (q.slots n).graphic_buffer _ (λ f.
          k ws (drop_buffer core n q) h.1 (
            Fewer-true (left core bound ws q) m (goes_on core bound n q) (ground (arith, e, f))
              h.0)))

  search_slot-Ends :
      (fuel : ℕ) (r : Request) (ws : List (Wake core)) (q : Queue BufferState)
      → All (IsBounded core bound) ws
      → left core bound ws q + 1 ≤ fuel
      → Ends (search_slot core fuel r ws q)
  unfolding search_slot
  search_slot-Ends zero r ws q f h = absurd (omega arith)
  search_slot-Ends (suc fuel) r ws q f h =
      on_found-Ends (search_slot core fuel r) r (left core bound ws q) _
        (λ ws' q' f' h'. search_slot-Ends fuel r ws' q' f' (omega (arith, h, h')))
        (wait_for_free_slot-Fewer core bound ws q f)

  on_search-Ends : (r : Request) (s : Search core) → Ends s → on_search core r s ≢ no_fuel
  on_search-Ends r (Search.refused status q) h = λ g. absurd (ground arith)
  on_search-Ends r (slot n q) h = by_buffer (q.slots n).graphic_buffer
    where
      by_buffer : (o : Option ℕ) → take_if_fits core n r q o ≢ no_fuel
      by_buffer none =
          if-keeps (λ s. s ≢ no_fuel) (is_slot q.shared_buffer_slot n)
            (λ e g. absurd (ground arith)) (λ e g. absurd (ground arith))
      by_buffer (some b) =
          if-keeps (λ s. s ≢ no_fuel) (is_slot q.shared_buffer_slot n && needs_reallocation b r)
            (λ e g. absurd (ground arith)) (λ e g. absurd (ground arith))
  on_search-Ends r (stuck q) h = λ g. absurd (ground arith)
  on_search-Ends r faulted h = λ g. absurd (ground arith)
  on_search-Ends r out_of_fuel h = absurd (h refl)

  on_hand_over-Ends :
      (n : ℕ) (t : Taken core) (p : Option Status × Queue BufferState)
      → on_hand_over core n t p ≢ exhausted
  on_hand_over-Ends n t (none, q) = λ g. absurd (ground arith)
  on_hand_over-Ends n t (some status, q) = λ g. absurd (ground arith)

  on_second-Ends :
      (a : Allocation) (others : Queue BufferState → Queue BufferState) (s : Second core)
      → s ≢ no_fuel
      → on_second core a others s ≢ exhausted
  on_second-Ends a others (returned status q) h = λ g. absurd (ground arith)
  on_second-Ends a others (taken n t) h =
      if-keeps (λ d. d ≢ exhausted) t.reallocates
        (λ e. on_hand_over-Ends n t (hand_over core n a (others t.queue)))
        (λ e g. absurd (ground arith))
  on_second-Ends a others (waits q) h = λ g. absurd (ground arith)
  on_second-Ends a others crashed h = λ g. absurd (ground arith)
  on_second-Ends a others no_fuel h = absurd (h refl)

  -- Where no wake leaves more free buffers than the bound: with more fuel than the free buffers there
  -- are and, for each wake, the bound and one, dequeueBuffer does not run out of fuel.
  pub dequeue_buffer-enough :
      (fuel : ℕ) (c : Course core) (r : Request) (q : Queue BufferState)
      → All (IsBounded core bound) c.wakes
      → left core bound c.wakes (await_allocation core (c.before q)) + 1 ≤ fuel
      → dequeue_buffer core fuel c r q ≢ exhausted
  unfolding dequeue_buffer dequeue_second
  dequeue_buffer-enough fuel c r q f h =
      let P : Dequeued core → Type 0 = λ d. d ≢ exhausted in
      let q' = await_allocation core (c.before q) in
      if-keeps P q.is_abandoned (λ e g. absurd (ground arith))
        (λ e.
          if-keeps P (q.connected_api == core.no_connected_api) (λ k g. absurd (ground arith))
            (λ k.
              if-keeps P
                (not (r.width == 0) && r.height == 0 || r.width == 0 && not (r.height == 0))
                (λ j g. absurd (ground arith))
                (λ j.
                  on_second-Ends c.allocation c.meanwhile
                    (dequeue_second core fuel r c.wakes (c.before q))
                    (on_search-Ends (complete core r q') _
                      (search_slot-Ends fuel (complete core r q') c.wakes q' f h)))))
