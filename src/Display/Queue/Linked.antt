-- ===== src/Display/Queue/Linked.antt =====
-- BufferQueueProducer.cpp: connect, disconnect and allocateBuffers keep the balance, however they
-- end.
use osdi_artifact.Prelude.{
  ℕ, ℤ, ◌==◌, eq_ℤ, Bool, not, Option, none, some, List, [], ◌∷◌, ◌≡◌, refl, arith, if-keeps, subst,
  ◌≤◌,
}
use osdi_artifact.Display.Queue.State.{Queue, Request, Core}
use osdi_artifact.Display.Queue.Sets.{count, count-erase}
use osdi_artifact.Display.Queue.Counts.{Counts, IsBalanced, Keeps, Balancing}
use osdi_artifact.Display.Queue.Dequeue.{Allocation, made, error}
use osdi_artifact.Display.Queue.Connect.{
  Listener, DisconnectMode, of_api, all_local, connect, disconnect, Connected, connect_adjusted,
  is_known_api, reset_flags, Disconnected, disconnect_api, disconnect_locked, free_connection,
  with_listener,
}
use osdi_artifact.Display.Queue.Allocate.{
  AllocationRound, Allocated, returned, unfinished, allocate_buffers, fill_slot, filled, wanted,
  same_request, on_allocation, is_done, not_allocating, allocating,
}
use osdi_artifact.Display.Queue.Found.{All}
use osdi_artifact.Display.Queue.Settled.{rest_changes}

module _ (core : Core) (counts : Counts core) (laws : Balancing core counts) where
  open core use {
    BufferState, wait_while_allocating, adjust_available_slots, clear_buffer_slot, free_all_buffers,
  }

  abbrev Balanced : Queue BufferState → Type 0
  Balanced = IsBalanced core counts

  abbrev KeepsConnected : Connected core → Type 0
  KeepsConnected c = Balanced c.queue

  reset_flags-IsBalanced :
      (pid : ℤ) (by_app : Bool) (q : Queue BufferState)
      → Balanced q
      → Balanced (reset_flags core pid by_app q)
  unfolding reset_flags
  reset_flags-IsBalanced pid by_app q b =
      rest_changes core counts laws q _ refl refl refl refl refl refl refl b

  connect_adjusted-Keeps :
      (listener : Option Listener) (api : ℕ) (by_app : Bool) (pid : ℤ) (q : Queue BufferState)
      (d : ℤ) (o : Option (Queue BufferState))
      → adjust_available_slots d q ≡ o
      → Balanced q
      → KeepsConnected (connect_adjusted core listener api by_app pid q o)
  connect_adjusted-Keeps listener api by_app pid q d none e b = b
  connect_adjusted-Keeps listener api by_app pid q d (some q') e b =
      let b' = laws.adjust-IsBalanced d q q' e b in
      if-keeps KeepsConnected (is_known_api core api)
        (λ known.
          reset_flags-IsBalanced pid by_app
            (record q' { connected_api = api; link = with_listener core listener q'.link })
            (rest_changes core counts laws q' _ refl refl refl refl refl refl refl b'))
        (λ unknown. reset_flags-IsBalanced pid by_app q' b')

  pub connect-Keeps :
      (listener : Option Listener) (api : ℕ) (by_app out : Bool) (pid : ℤ) (q : Queue BufferState)
      → Balanced q
      → KeepsConnected (connect core listener api by_app out pid q)
  unfolding connect
  connect-Keeps listener api by_app out pid q b =
      if-keeps KeepsConnected q.is_abandoned (λ e. b)
        (λ e.
          if-keeps KeepsConnected (not q.consumer_listener) (λ f. b)
            (λ f.
              if-keeps KeepsConnected (not out) (λ g. b)
                (λ g.
                  if-keeps KeepsConnected (not (q.connected_api == core.no_connected_api)) (λ h. b)
                    (λ h. connect_adjusted-Keeps listener api by_app pid q _ _ refl b))))

  abbrev KeepsDisconnected : Disconnected core → Type 0
  KeepsDisconnected d = Balanced d.queue

  free_connection-IsBalanced :
      (q : Queue BufferState) → Balanced q → Balanced (free_connection core q)
  unfolding free_connection
  free_connection-IsBalanced q b =
      let b' = laws.free_all-IsBalanced q b in
      record {
        one_place = λ m. b'.one_place m;
        active-total = λ m. b'.active-total m;
        items-queues = λ m. b'.items-queues m;
        not_shared = λ m. b'.not_shared m;
        no_shared_mode = b'.no_shared_mode;
        no_shared_slot = refl;
      }

  disconnect_api-Keeps :
      (api : ℕ) (q : Queue BufferState) → Balanced q → KeepsDisconnected (disconnect_api core api q)
  disconnect_api-Keeps api q b =
      if-keeps KeepsDisconnected (is_known_api core api)
        (λ e.
          if-keeps KeepsDisconnected (q.connected_api == api) (λ f. free_connection-IsBalanced q b)
            (λ f.
              if-keeps KeepsDisconnected (q.connected_api == core.no_connected_api) (λ g. b)
                (λ g. b)))
        (λ e. b)

  disconnect_locked-Keeps :
      (api : ℕ) (q : Queue BufferState)
      → Balanced q
      → KeepsDisconnected (disconnect_locked core api q)
  disconnect_locked-Keeps api q b =
      if-keeps KeepsDisconnected q.is_abandoned (λ e. b)
        (λ e.
          if-keeps KeepsDisconnected (api == core.constants.currently_connected_api)
            (λ f.
              if-keeps KeepsDisconnected (q.connected_api == core.no_connected_api) (λ g. b)
                (λ g. disconnect_api-Keeps q.connected_api q b))
            (λ f. disconnect_api-Keeps api q b))

  pub disconnect-Keeps :
      (api : ℕ) (mode : DisconnectMode) (pid : ℤ) (q : Queue BufferState)
      → Balanced q
      → KeepsDisconnected (disconnect core api mode pid q)
  unfolding disconnect
  disconnect-Keeps api of_api pid q b = disconnect_locked-Keeps api _ (laws.wait-IsBalanced q b)
  disconnect-Keeps api all_local pid q b =
      if-keeps KeepsDisconnected (not (eq_ℤ pid q.link.connected_pid)) (λ e. b)
        (λ e.
          disconnect_locked-Keeps core.constants.currently_connected_api _
            (laws.wait-IsBalanced q b))

  fill_slot-IsBalanced :
      (ns : List ℕ) (b : ℕ) (q : Queue BufferState)
      → ns ≡ q.free_slots
      → Balanced q
      → Balanced (fill_slot core ns b q)
  unfolding fill_slot
  fill_slot-IsBalanced [] buffer q e b = b
  fill_slot-IsBalanced (n ∷ ns) buffer q e b =
      let cleared = counts.view-clear (q.slots n) in
      let first : 1 ≤ count n q.free_slots = subst (λ l. 1 ≤ count n l) e (ground arith) in
      let inactive : count n q.active_buffers ≡ 0 = omega (arith, first, b.one_place n) in
      let unfree : count n q.free_buffers ≡ 0 = omega (arith, first, b.one_place n) in
      record {
        one_place = λ m.
            ground (arith, b.one_place m, first, inactive, unfree, count-erase m n q.free_slots);
        active-total = λ m. ground (arith, b.active-total m, inactive, cleared);
        items-queues = λ m. ground (arith, b.items-queues m, b.active-total n, inactive, cleared);
        not_shared = λ m. ground (arith, b.not_shared m, cleared);
        no_shared_mode = b.no_shared_mode;
        no_shared_slot = b.no_shared_slot;
      }

  pub filled-IsBalanced :
      (wish r : Request) (b : ℕ) (q : Queue BufferState)
      → Balanced q
      → Balanced (filled core wish r b q)
  unfolding filled
  filled-IsBalanced wish r buffer q b =
      if-keeps (λ p. Balanced (not_allocating core p)) (same_request core (wanted core wish q) r)
        (λ e.
          rest_changes core counts laws (fill_slot core q.free_slots buffer q) _ refl refl refl refl
            refl refl refl (fill_slot-IsBalanced q.free_slots buffer q refl b))
        (λ e. rest_changes core counts laws q _ refl refl refl refl refl refl refl b)

  abbrev pub AllocatedKeeps : Allocated core → Type 0
  AllocatedKeeps (returned q) = Balanced q
  AllocatedKeeps (unfinished q) = Balanced q

  -- Other threads keep the balance in a round.
  abbrev pub IsFairRound : AllocationRound core → Type 0
  IsFairRound c = Keeps core counts c.meanwhile × Keeps core counts c.after

  on_allocation-Keeps :
      (again : Queue BufferState → Allocated core) (wish r : Request)
      (after : Queue BufferState → Queue BufferState) (a : Allocation) (q : Queue BufferState)
      → ((p : Queue BufferState) → Balanced p → AllocatedKeeps (again p))
      → Keeps core counts after
      → Balanced q
      → AllocatedKeeps (on_allocation core again wish r after a q)
  on_allocation-Keeps again wish r after (error code) q k f b =
      rest_changes core counts laws q _ refl refl refl refl refl refl refl b
  on_allocation-Keeps again wish r after (made x) q k f b = k _ (
      if-keeps Balanced (same_request core (wanted core wish q) r)
        (λ e. f _ (filled-IsBalanced wish r x q b)) (λ e. filled-IsBalanced wish r x q b))

  pub allocate_buffers-Keeps :
      (cs : List (AllocationRound core)) (wish : Request) (q : Queue BufferState)
      → All IsFairRound cs
      → Balanced q
      → AllocatedKeeps (allocate_buffers core cs wish q)
  unfolding allocate_buffers
  allocate_buffers-Keeps [] wish p f h =
      let q = wait_while_allocating p in
      let b = laws.wait-IsBalanced p h in
      if-keeps AllocatedKeeps (is_done core q) (λ e. b)
        (λ e.
          rest_changes core counts laws q (allocating core q) refl refl refl refl refl refl refl b)
  allocate_buffers-Keeps (c ∷ cs) wish p f h =
      let q = wait_while_allocating p in
      let b = laws.wait-IsBalanced p h in
      if-keeps AllocatedKeeps (is_done core q) (λ e. b)
        (λ e.
          on_allocation-Keeps (allocate_buffers core cs wish) wish (wanted core wish q) c.after
            c.allocation (c.meanwhile (allocating core q))
            (λ r k. allocate_buffers-Keeps cs wish r f.1 k) f.0.1
            (f.0.0 _ (
              rest_changes core counts laws q (allocating core q) refl refl refl refl refl refl refl
                b)))
