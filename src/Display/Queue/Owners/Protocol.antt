-- ===== src/Display/Queue/Owners/Protocol.antt =====
-- BufferQueueProducer.cpp: the operations that pass slots about are runs of the protocol of the owners.
use osdi_artifact.Prelude.{
  ℕ, ◌≤◌, ◌==◌, ℤ, eq_ℤ, Bool, true, false, not, ◌||◌, Option, none, some, List, [], ◌∷◌, ◌≡◌, refl,
  arith, subst, if-keeps,
}
use osdi_artifact.Display.Queue.State.{Queue, Request, Core, Status, no_error}
use osdi_artifact.Display.Queue.{
  slot_number, request_buffer, detach_buffer, detach_next_buffer, cancel_buffer, cancel_with,
  Detached, Done, in_range, with_producer, with_dequeued, at_slot,
}
use osdi_artifact.Display.Queue.Sets.{count}
use osdi_artifact.Display.Queue.Counts.{Counts, IsBalanced, Balancing}
use osdi_artifact.Display.Queue.Dequeue.{Allocation, made, error}
use osdi_artifact.Display.Queue.Allocate.{
  AllocationRound, Allocated, allocate_buffers, fill_slot, filled, wanted, same_request,
  on_allocation, is_done, not_allocating, allocating,
}
use osdi_artifact.Display.Queue.Calls.{with_producer-keeps, with_dequeued-keeps}
use osdi_artifact.Display.Queue.Found.{All}
use osdi_artifact.Display.Queue.Linked.{IsFairRound, filled-IsBalanced}
use osdi_artifact.Display.Queue.Settled.{rest_changes}
use osdi_artifact.Display.Queue.Owners.{gives_back, Move, owner, stays, Run-trans, Run-Same}
use osdi_artifact.Display.Queue.Owners.Moves.{
  Moves, Stays, mark_requested-Stays, detach_slot-gives_back, cancel_slot-gives_back,
  detach_front-Stays, inactive-nobody,
}
use osdi_artifact.Display.Queue.Owners.WaitMoves.{Plays}
use osdi_artifact.Display.Queue.Api.{after_allocate}

module _ (core : Core) (counts : Counts core) (laws : Balancing core counts) where
  open core use {BufferState, wait_while_allocating}
  open counts use {view}

  abbrev Balanced : Queue BufferState → Type 0
  Balanced = IsBalanced core counts

  here : (q : Queue BufferState) → Moves core counts q q
  here q = stays (λ k. refl)

  pub request_buffer-Moves :
      (s : ℤ) (q : Queue BufferState) → Moves core counts q (request_buffer core s q).queue
  unfolding request_buffer
  request_buffer-Moves s q = with_producer-keeps core (Moves core counts q) q _ (here q) (
      with_dequeued-keeps core (Moves core counts q) s q _ (here q)
        (λ n h. stays (mark_requested-Stays core counts n q)))

  -- Where a call returns NO_ERROR, it has given back the slot `o`; where it does not, none.
  abbrev GivesBack : Option ℕ → Queue BufferState → Status → Queue BufferState → Type 0
  GivesBack o p no_error q =
      (n : ℕ) × (o ≡ some n) × Move (owner core counts p) (gives_back n) (owner core counts q)
  GivesBack o p _ q = Stays core counts p q

  abbrev pub Returns : ℤ → Queue BufferState → Done BufferState → Type 0
  Returns s q done = GivesBack (in_range core.num_buffer_slots s) q done.status done.queue

  with_producer-Returns :
      (s : ℤ) (q : Queue BufferState) (done : Done BufferState)
      → Returns s q done
      → Returns s q (with_producer core q done)
  with_producer-Returns s q done d =
      if-keeps (Returns s q) q.is_abandoned (λ e k. refl)
        (λ e.
          if-keeps (Returns s q) (q.connected_api == core.no_connected_api) (λ f k. refl) (λ f. d))

  at_slot-GivesBack :
      (o : Option ℕ) (q : Queue BufferState) (k : ℕ → Done BufferState)
      → ((n : ℕ) → GivesBack (some n) q (k n).status (k n).queue)
      → let d = at_slot core o q k in GivesBack o q d.status d.queue
  at_slot-GivesBack none q k f = λ k. refl
  at_slot-GivesBack (some n) q k f = f n

  with_dequeued-Returns :
      (s : ℤ) (q : Queue BufferState) (k : ℕ → Done BufferState)
      → ((n : ℕ)
          → core.is_dequeued (q.slots n).buffer_state ≡ true
          → GivesBack (some n) q (k n).status (k n).queue)
      → Returns s q (with_dequeued core s q k)
  with_dequeued-Returns s q k f = at_slot-GivesBack (in_range core.num_buffer_slots s) q _ (λ n.
      if-keeps (λ (d : Done BufferState). GivesBack (some n) q d.status d.queue)
        (not (core.is_dequeued (q.slots n).buffer_state)) (λ e k. refl)
        (λ e. f n (ground (arith, e))))

  pub detach_buffer-Returns : (s : ℤ) (q : Queue BufferState) → Returns s q (detach_buffer core s q)
  unfolding detach_buffer
  detach_buffer-Returns s q = with_producer-Returns s q _ (
      if-keeps (Returns s q) (q.shared_buffer_mode || eq_ℤ (slot_number q.shared_buffer_slot) s)
        (λ e k. refl)
        (λ e. with_dequeued-Returns s q _ (λ n h.
          if-keeps (λ (d : Done BufferState). GivesBack (some n) q d.status d.queue)
            (not (q.slots n).request_buffer_called) (λ f k. refl)
            (λ f. (n, refl, (detach_slot-gives_back core counts n q h))))))

  pub detach_next_buffer-Moves :
      (out_buffer out_fence : Bool) (q : Queue BufferState)
      → Plays core counts wait_while_allocating
      → Balanced q
      → Moves core counts q (detach_next_buffer core out_buffer out_fence q).done.queue
  unfolding detach_next_buffer
  detach_next_buffer-Moves false out_fence q w b = here q
  detach_next_buffer-Moves true false q w b = here q
  detach_next_buffer-Moves true true q w b =
      let q' = wait_while_allocating q in
      let P : Detached core → Type 0 = λ d. Moves core counts q d.done.queue in
      if-keeps P q.is_abandoned (λ e. here q)
        (λ e.
          if-keeps P (q.connected_api == core.no_connected_api) (λ f. here q)
            (λ f.
              if-keeps P q.shared_buffer_mode (λ g. here q)
                (λ g. Run-Same (w q b) (
                  detach_front-Stays core counts q'.free_buffers q' refl
                    (laws.wait-IsBalanced q b)))))

  cancel_with-GivesBack :
      (n : ℕ) (fence : Option ℕ) (q : Queue BufferState)
      → Balanced q
      → core.is_dequeued (q.slots n).buffer_state ≡ true
      → let d = cancel_with core n fence q in GivesBack (some n) q d.status d.queue
  cancel_with-GivesBack n none q b h = λ k. refl
  cancel_with-GivesBack n (some f) q b h =
      (n, refl, (cancel_slot-gives_back core counts n (some f) q b h))

  pub cancel_buffer-Returns :
      (s : ℤ) (fence : Option ℕ) (q : Queue BufferState)
      → Balanced q
      → Returns s q (cancel_buffer core s fence q)
  unfolding cancel_buffer
  cancel_buffer-Returns s fence q b = with_producer-Returns s q _ (
      if-keeps (Returns s q) q.shared_buffer_mode (λ e k. refl)
        (λ e. with_dequeued-Returns s q _ (λ n h. cancel_with-GivesBack n fence q b h)))

  -- A free slot that takes a buffer stays with nobody.
  fill_slot-Stays :
      (ns : List ℕ) (b : ℕ) (q : Queue BufferState)
      → ns ≡ q.free_slots
      → Balanced q
      → Stays core counts q (fill_slot core ns b q)
  unfolding fill_slot
  fill_slot-Stays [] buffer q e b k = refl
  fill_slot-Stays (n ∷ ns) buffer q e b k =
      let first : 1 ≤ count n q.free_slots = subst (λ l. 1 ≤ count n l) e (ground arith) in
      ground (
        arith,
        inactive-nobody core counts n q b (omega (arith, first)),
        counts.view-clear (q.slots n),
      )

  filled-Stays :
      (wish r : Request) (b : ℕ) (q : Queue BufferState)
      → Balanced q
      → Stays core counts q (filled core wish r b q)
  unfolding filled
  filled-Stays wish r buffer q b =
      if-keeps (λ p. Stays core counts q (not_allocating core p))
        (same_request core (wanted core wish q) r)
        (λ e k. fill_slot-Stays q.free_slots buffer q refl b k) (λ e k. refl)

  abbrev AllocatedMoves : Queue BufferState → Allocated core → Type 0
  AllocatedMoves p a = Moves core counts p (after_allocate core a)

  -- The other threads play by the protocol in a round, and keep the balance.
  abbrev pub PlaysRound : AllocationRound core → Type 0
  PlaysRound c =
      IsFairRound core counts laws c × Plays core counts c.meanwhile × Plays core counts c.after

  on_allocation-Moves :
      (p : Queue BufferState) (again : Queue BufferState → Allocated core) (wish r : Request)
      (c : AllocationRound core) (a : Allocation) (q : Queue BufferState)
      → ((s : Queue BufferState) → Balanced s → AllocatedMoves s (again s))
      → PlaysRound c
      → Balanced q
      → Moves core counts p q
      → AllocatedMoves p (on_allocation core again wish r c.after a q)
  on_allocation-Moves p again wish r c (error code) q k f b m = Run-Same m (λ i. refl)
  on_allocation-Moves p again wish r c (made x) q k f b m =
      let s = filled core wish r x q in
      let b' = filled-IsBalanced core counts laws wish r x q b in
      let m' = Run-Same m (filled-Stays wish r x q b) in
      if-keeps (λ t. AllocatedMoves p (again t)) (same_request core (wanted core wish q) r)
        (λ e. Run-trans (Run-trans m' (f.2 s b')) (k (c.after s) (f.0.1 s b')))
        (λ e. Run-trans m' (k s b'))

  pub allocate_buffers-Moves :
      (cs : List (AllocationRound core)) (wish : Request) (q : Queue BufferState)
      → Plays core counts wait_while_allocating
      → All PlaysRound cs
      → Balanced q
      → AllocatedMoves q (allocate_buffers core cs wish q)
  unfolding allocate_buffers
  allocate_buffers-Moves [] wish p w f h =
      let q = wait_while_allocating p in
      if-keeps (AllocatedMoves p) (is_done core q) (λ e. w p h) (λ e. Run-Same (w p h) (λ k. refl))
  allocate_buffers-Moves (c ∷ cs) wish p w f h =
      let q = wait_while_allocating p in
      let r = allocating core q in
      let b =
        rest_changes core counts laws q r refl refl refl refl refl refl refl
          (laws.wait-IsBalanced p h) in
      if-keeps (AllocatedMoves p) (is_done core q) (λ e. w p h)
        (λ e.
          on_allocation-Moves p (allocate_buffers core cs wish) wish (wanted core wish q) c
            c.allocation (c.meanwhile r) (λ s k. allocate_buffers-Moves cs wish s w f.1 k) f.0
            (f.0.0.0 r b) (Run-trans (w p h) (Run-trans (stays (λ k. refl)) (f.0.1 r b))))
