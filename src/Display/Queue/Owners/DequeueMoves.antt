-- ===== src/Display/Queue/Owners/DequeueMoves.antt =====
-- BufferQueueProducer.cpp: dequeueBuffer and attachBuffer are runs of the protocol of the owners, where
-- the other threads play by it.
use osdi_artifact.Prelude.{
  ℕ, zero, suc, ◌==◌, Bool, true, false, not, ◌&&◌, ◌||◌, Option, none, some, List, ◌≡◌, arith,
  refl, if-keeps,
}
use osdi_artifact.Display.Queue.State.{Queue, Request, Core}
use osdi_artifact.Display.Queue.Counts.{Counts, IsBalanced, IsLoose, Balancing}
use osdi_artifact.Display.Queue.Wait.{FreeSlotCaller, Wake, Waited, failed, found, blocked}
use osdi_artifact.Display.Queue.Dequeue.{
  Search, without_allocation, on_found, search_slot, drop_buffer, is_slot, Second, on_search,
  take_if_fits, returned, taken, waits, crashed, no_fuel, slot, stuck, faulted, out_of_fuel,
  complete, dequeue_second, await_allocation, Dequeued, gives, waits_on, crashes, exhausted, Course,
  dequeue_buffer, on_second, hand_over, made, on_hand_over, Taken, is_empty,
}
use osdi_artifact.Display.Queue.Balanced.{drop_buffer-IsBalanced}
use osdi_artifact.Display.Queue.Found.{Fair, WaitedKeeps, wait_for_free_slot-Keeps}
use osdi_artifact.Display.Queue.Kept.{
  IsFair, SearchKeeps, search_slot-Keeps, await_allocation-IsBalanced, SecondKeeps,
  dequeue_second-Keeps, same_lists,
}
use osdi_artifact.Display.Queue.Owners.{takes, stays, moves, Run-trans, Run-Same}
use osdi_artifact.Display.Queue.Owners.Moves.{Moves, Does, drop_buffer-Stays, take_slot-takes}
use osdi_artifact.Display.Queue.Owners.WaitMoves.{
  Plays, AllPlay, WaitedMoves, wait_for_free_slot-Moves,
}
use osdi_artifact.Display.Queue.Attach.{Attached, attach_found, attach_buffer}
use osdi_artifact.Display.Queue.Owners.Moves.{attach_slot-takes}

module _ (core : Core) (counts : Counts core) (laws : Balancing core counts) where
  open core use {BufferState, needs_reallocation, wait_while_allocating}

  abbrev Balanced : Queue BufferState → Type 0
  Balanced = IsBalanced core counts

  abbrev SearchMoves : Queue BufferState → Search core → Type 0
  SearchMoves p (Search.refused status q) = Moves core counts p q
  SearchMoves p (slot n q) = Moves core counts p q
  SearchMoves p (stuck q) = Moves core counts p q
  SearchMoves p faulted = Unit
  SearchMoves p out_of_fuel = Unit

  SearchMoves-trans :
      (p q : Queue BufferState) (s : Search core)
      → Moves core counts p q
      → SearchMoves q s
      → SearchMoves p s
  SearchMoves-trans p q (Search.refused status r) m h = Run-trans m h
  SearchMoves-trans p q (slot n r) m h = Run-trans m h
  SearchMoves-trans p q (stuck r) m h = Run-trans m h
  SearchMoves-trans p q faulted m h = tt
  SearchMoves-trans p q out_of_fuel m h = tt

  without_allocation-Moves :
      (p : Queue BufferState) (r : Request) (n : ℕ) (q : Queue BufferState) (o : Option ℕ)
      (next : Search core)
      → Moves core counts p q
      → SearchMoves p next
      → SearchMoves p (without_allocation core r n q o next)
  without_allocation-Moves p r n q none next m k = tt
  without_allocation-Moves p r n q (some b) next m k =
      if-keeps (SearchMoves p) (needs_reallocation b r)
        (λ e. if-keeps (SearchMoves p) (is_slot q.shared_buffer_slot n) (λ f. m) (λ f. k)) (λ e. m)

  on_found-Moves :
      (p : Queue BufferState) (again : List (Wake core) → Queue BufferState → Search core)
      (r : Request) (w : Waited core)
      → ((ws : List (Wake core)) (q : Queue BufferState)
          → Fair core counts ws
          → AllPlay core counts ws
          → Balanced q
          → SearchMoves q (again ws q))
      → WaitedKeeps core counts w
      → WaitedMoves core counts p w
      → SearchMoves p (on_found core again r w)
  on_found-Moves p again r (failed status q) k h m = m
  on_found-Moves p again r (blocked q) k h m = m
  on_found-Moves p again r (found n q ws) k h m =
      if-keeps (SearchMoves p) q.allow_allocation (λ e. m.0)
        (λ e. without_allocation-Moves p r n q (q.slots n).graphic_buffer _ m.0 (
          SearchMoves-trans p (drop_buffer core n q) _
            (Run-Same m.0 (drop_buffer-Stays core counts n q h.0))
            (k ws (drop_buffer core n q) h.2 m.1 (drop_buffer-IsBalanced core counts n q h.0))))

  search_slot-Moves :
      (fuel : ℕ) (r : Request) (ws : List (Wake core)) (q : Queue BufferState)
      → Fair core counts ws
      → AllPlay core counts ws
      → Balanced q
      → SearchMoves q (search_slot core fuel r ws q)
  unfolding search_slot
  search_slot-Moves zero r ws q f g b = tt
  search_slot-Moves (suc fuel) r ws q f g b =
      on_found-Moves q (search_slot core fuel r) r _ (search_slot-Moves fuel r)
        (wait_for_free_slot-Keeps core counts FreeSlotCaller.dequeue ws q f b)
        (wait_for_free_slot-Moves core counts FreeSlotCaller.dequeue ws q f g b)

  abbrev SecondMoves : Queue BufferState → Second core → Type 0
  SecondMoves p (returned status q) = Moves core counts p q
  SecondMoves p (taken n t) = Does core counts (takes n) p t.queue
  SecondMoves p (waits q) = Moves core counts p q
  SecondMoves p crashed = Unit
  SecondMoves p no_fuel = Unit

  take_if_fits-Moves :
      (p : Queue BufferState) (n : ℕ) (r : Request) (q : Queue BufferState) (o : Option ℕ)
      → IsLoose core counts n q
      → Moves core counts p q
      → SecondMoves p (take_if_fits core n r q o)
  take_if_fits-Moves p n r q none l m =
      if-keeps (SecondMoves p) (is_slot q.shared_buffer_slot n) (λ e. tt)
        (λ e. moves m (take_slot-takes core counts n r q l))
  take_if_fits-Moves p n r q (some b) l m =
      if-keeps (SecondMoves p) (is_slot q.shared_buffer_slot n && needs_reallocation b r) (λ e. m)
        (λ e. moves m (take_slot-takes core counts n r q l))

  on_search-Moves :
      (p : Queue BufferState) (r : Request) (s : Search core)
      → SearchKeeps core counts laws s
      → SearchMoves p s
      → SecondMoves p (on_search core r s)
  on_search-Moves p r (Search.refused status q) h m = m
  on_search-Moves p r (slot n q) h m = take_if_fits-Moves p n r q (q.slots n).graphic_buffer h.0 m
  on_search-Moves p r (stuck q) h m = m
  on_search-Moves p r faulted h m = tt
  on_search-Moves p r out_of_fuel h m = tt

  await_allocation-Moves :
      (q : Queue BufferState)
      → Plays core counts wait_while_allocating
      → Balanced q
      → Moves core counts q (await_allocation core q)
  unfolding await_allocation
  await_allocation-Moves q w b =
      if-keeps (Moves core counts q) (is_empty q.free_buffers && q.is_allocating)
        (λ e.
          Run-Same
            (Run-trans (stays (λ k. refl)) (
              w (record q { dequeue_waiting_for_allocation = true })
                (same_lists core counts laws q _ refl refl refl refl refl refl refl b)))
            (λ k. refl))
        (λ e. stays (λ k. refl))

  dequeue_second-Moves :
      (fuel : ℕ) (r : Request) (ws : List (Wake core)) (p q : Queue BufferState)
      → Plays core counts wait_while_allocating
      → Fair core counts ws
      → AllPlay core counts ws
      → Balanced q
      → Moves core counts p q
      → SecondMoves p (dequeue_second core fuel r ws q)
  unfolding dequeue_second
  dequeue_second-Moves fuel r ws p q w f g b m =
      let q' = await_allocation core q in
      let b' = await_allocation-IsBalanced core counts laws q b in
      let r' = complete core r q' in
      on_search-Moves p r' (search_slot core fuel r' ws q')
        (search_slot-Keeps core counts laws fuel r' ws q' f b')
        (SearchMoves-trans p q' _ (Run-trans m (await_allocation-Moves q w b))
          (search_slot-Moves fuel r' ws q' f g b'))

  abbrev pub DequeuedMoves : Queue BufferState → Dequeued core → Type 0
  DequeuedMoves p (Dequeued.refuses status q) = Moves core counts p q
  DequeuedMoves p (gives a q) = Does core counts (takes a.slot) p q
  DequeuedMoves p (waits_on q) = Moves core counts p q
  DequeuedMoves p crashes = Unit
  DequeuedMoves p exhausted = Unit

  -- A fair course in which the other threads play by the protocol.
  pub record PlaysFair (c : Course core) : Type 0 where
    pub fair : IsFair core counts laws c
    pub before_plays : Plays core counts c.before
    pub wakes_play : AllPlay core counts c.wakes
    pub meanwhile_plays : Plays core counts c.meanwhile

  -- The slot with the buffer that was allocated, in a queue that has not been abandoned, is given out.
  on_hand_over-Moves :
      (p q : Queue BufferState) (n b : ℕ) (t : Taken core)
      → q.is_abandoned ≡ false
      → Does core counts (takes n) p q
      → DequeuedMoves p (on_hand_over core n t (hand_over core n (made b) q))
  unfolding hand_over
  on_hand_over-Moves p q n b t a m = rw a (Run-Same m (λ k. ground arith))

  on_second-Moves :
      (p : Queue BufferState) (c : Course core) (s : Second core)
      → PlaysFair c
      → SecondKeeps core counts laws s
      → SecondMoves p s
      → DequeuedMoves p (on_second core c.allocation c.meanwhile s)
  on_second-Moves p c (returned status q) f h m = m
  on_second-Moves p c (taken n t) f h m =
      if-keeps (DequeuedMoves p) t.reallocates
        (λ e. rw f.fair.allocates (
          on_hand_over-Moves p (c.meanwhile t.queue) n f.fair.buffer t (f.fair.stays t.queue h.1)
            (Run-trans m (f.meanwhile_plays t.queue h.0))))
        (λ e. m)
  on_second-Moves p c (waits q) f h m = m
  on_second-Moves p c crashed f h m = tt
  on_second-Moves p c no_fuel f h m = tt

  pub dequeue_buffer-Moves :
      (fuel : ℕ) (c : Course core) (r : Request) (q : Queue BufferState)
      → Plays core counts wait_while_allocating
      → PlaysFair c
      → Balanced q
      → DequeuedMoves q (dequeue_buffer core fuel c r q)
  unfolding dequeue_buffer
  dequeue_buffer-Moves fuel c r q w f b =
      let P = DequeuedMoves q in
      let q' = c.before q in
      let b' = f.fair.before_keeps q b in
      if-keeps P q.is_abandoned (λ e. stays (λ k. refl))
        (λ e.
          if-keeps P (q.connected_api == core.no_connected_api) (λ g. stays (λ k. refl))
            (λ g.
              if-keeps P
                (not (r.width == 0) && r.height == 0 || r.width == 0 && not (r.height == 0))
                (λ h. stays (λ k. refl))
                (λ h.
                  on_second-Moves q c (dequeue_second core fuel r c.wakes q') f
                    (dequeue_second-Keeps core counts laws fuel r c.wakes q' f.fair.wakes_keep b')
                    (dequeue_second-Moves fuel r c.wakes q q' w f.fair.wakes_keep f.wakes_play b'
                      (f.before_plays q b)))))

  abbrev pub AttachedMoves : Queue BufferState → Attached core → Type 0
  AttachedMoves p (Attached.refuses status q) = Moves core counts p q
  AttachedMoves p (Attached.gives n q) = Does core counts (takes n) p q
  AttachedMoves p (Attached.waits_on q) = Moves core counts p q

  attach_found-Moves :
      (p q : Queue BufferState) (b : ℕ) (w : Waited core)
      → Moves core counts p q
      → WaitedKeeps core counts w
      → WaitedMoves core counts q w
      → AttachedMoves p (attach_found core b w)
  attach_found-Moves p q b (failed status r) m h g = Run-trans m g
  attach_found-Moves p q b (found n r ws) m h g =
      moves (Run-trans m g.0) (attach_slot-takes core counts n b r h.0)
  attach_found-Moves p q b (blocked r) m h g = Run-trans m g

  pub attach_buffer-Moves :
      (out : Bool) (buffer : Option ℕ) (ws : List (Wake core)) (q : Queue BufferState)
      → Plays core counts wait_while_allocating
      → Fair core counts ws
      → AllPlay core counts ws
      → Balanced q
      → AttachedMoves q (attach_buffer core out buffer ws q)
  unfolding attach_buffer
  attach_buffer-Moves false buffer ws q w f g b = stays (λ k. refl)
  attach_buffer-Moves true none ws q w f g b = stays (λ k. refl)
  attach_buffer-Moves true (some x) ws q w f g b =
      let P = AttachedMoves q in
      let q' = wait_while_allocating q in
      let b' = laws.wait-IsBalanced q b in
      if-keeps P q.is_abandoned (λ e. stays (λ k. refl))
        (λ e.
          if-keeps P (q.connected_api == core.no_connected_api) (λ h. stays (λ k. refl))
            (λ h.
              if-keeps P q.shared_buffer_mode (λ i. stays (λ k. refl))
                (λ i.
                  if-keeps P (not (q.generations x == q.generation_number)) (λ j. stays (λ k. refl))
                    (λ j.
                      attach_found-Moves q q' x _ (w q b)
                        (wait_for_free_slot-Keeps core counts FreeSlotCaller.attach ws q' f b')
                        (wait_for_free_slot-Moves core counts FreeSlotCaller.attach ws q' f g
                          b')))))
