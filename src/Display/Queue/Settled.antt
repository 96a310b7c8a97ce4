-- ===== src/Display/Queue/Settled.antt =====
-- BufferQueueProducer.cpp: the calls on a slot that is dequeued, and those that change the limits, keep
-- the balance, however they end.
use osdi_artifact.Prelude.{
  ℕ, ℤ, ◌==◌, ltb_ℤ, leb_ℤ, eq_ℤ, pos, Bool, true, false, not, ◌||◌, Option, none, some, ◌≡◌, refl,
  if◌then◌else◌, if-keeps, ◌+ℤ◌, ◌-ℤ◌,
}
use osdi_artifact.Display.Queue.State.{Queue, Core, Done}
use osdi_artifact.Display.Queue.{
  request_buffer, detach_buffer, detach_next_buffer, cancel_buffer, Detached, slot_number,
  cancel_with,
}
use osdi_artifact.Display.Queue.Counts.{Counts, IsBalanced, Balancing}
use osdi_artifact.Display.Queue.Balanced.{
  mark_requested-IsBalanced, detach_slot-IsBalanced, cancel_slot-IsBalanced,
  detach_front-IsBalanced,
}
use osdi_artifact.Display.Queue.Calls.{with_producer-keeps, with_dequeued-keeps}
use osdi_artifact.Display.Queue.Wait.{dequeued_count}
use osdi_artifact.Display.Queue.Limits.{
  set_max_dequeued_buffer_count, set_async_mode, set_dequeue_timeout, adjusted, with_max_dequeued,
  with_async_mode, with_timeout, eq_bool, one_more,
}
use osdi_artifact.Display.Queue.Kept.{same_lists}

module _ (core : Core) (counts : Counts core) (laws : Balancing core counts) where
  open core use {BufferState, wait_while_allocating, adjust_available_slots, clear_buffer_slot}

  abbrev Balanced : Queue BufferState → Type 0
  Balanced = IsBalanced core counts

  abbrev KeepsDone : Done BufferState → Type 0
  KeepsDone d = Balanced d.queue

  pub request_buffer-Keeps :
      (s : ℤ) (q : Queue BufferState) → Balanced q → KeepsDone (request_buffer core s q)
  unfolding request_buffer
  request_buffer-Keeps s q b = with_producer-keeps core Balanced q _ b (
      with_dequeued-keeps core Balanced s q _ b
        (λ n h. mark_requested-IsBalanced core counts n q b))

  pub detach_buffer-Keeps :
      (s : ℤ) (q : Queue BufferState) → Balanced q → KeepsDone (detach_buffer core s q)
  unfolding detach_buffer
  detach_buffer-Keeps s q b = with_producer-keeps core Balanced q _ b (
      if-keeps KeepsDone (q.shared_buffer_mode || eq_ℤ (slot_number q.shared_buffer_slot) s)
        (λ e. b)
        (λ e. with_dequeued-keeps core Balanced s q _ b (λ n h.
          if-keeps KeepsDone (not (q.slots n).request_buffer_called) (λ f. b)
            (λ f. detach_slot-IsBalanced core counts n q b h))))

  pub detach_next_buffer-Keeps :
      (out_buffer out_fence : Bool) (q : Queue BufferState)
      → Balanced q
      → Balanced (detach_next_buffer core out_buffer out_fence q).done.queue
  unfolding detach_next_buffer
  detach_next_buffer-Keeps false out_fence q b = b
  detach_next_buffer-Keeps true false q b = b
  detach_next_buffer-Keeps true true q b =
      let q' = wait_while_allocating q in
      let P : Detached core → Type 0 = λ d. Balanced d.done.queue in
      if-keeps P q.is_abandoned (λ e. b)
        (λ e.
          if-keeps P (q.connected_api == core.no_connected_api) (λ f. b)
            (λ f.
              if-keeps P q.shared_buffer_mode (λ g. b)
                (λ g.
                  detach_front-IsBalanced core counts q'.free_buffers q' refl
                    (laws.wait-IsBalanced q b))))

  cancel_with-Keeps :
      (n : ℕ) (fence : Option ℕ) (q : Queue BufferState)
      → Balanced q
      → core.is_dequeued (q.slots n).buffer_state ≡ true
      → KeepsDone (cancel_with core n fence q)
  cancel_with-Keeps n none q b h = b
  cancel_with-Keeps n (some f) q b h = cancel_slot-IsBalanced core counts n (some f) q b h

  pub cancel_buffer-Keeps :
      (s : ℤ) (fence : Option ℕ) (q : Queue BufferState)
      → Balanced q
      → KeepsDone (cancel_buffer core s fence q)
  unfolding cancel_buffer
  cancel_buffer-Keeps s fence q b = with_producer-keeps core Balanced q _ b (
      if-keeps KeepsDone q.shared_buffer_mode (λ e. b)
        (λ e. with_dequeued-keeps core Balanced s q _ b (λ n h. cancel_with-Keeps n fence q b h)))

  -- The lists and the slots are as they were.
  pub rest_changes :
      (p q : Queue BufferState)
      → p.slots ≡ q.slots
      → p.free_slots ≡ q.free_slots
      → p.free_buffers ≡ q.free_buffers
      → p.active_buffers ≡ q.active_buffers
      → p.queue ≡ q.queue
      → p.shared_buffer_mode ≡ q.shared_buffer_mode
      → p.shared_buffer_slot ≡ q.shared_buffer_slot
      → Balanced p
      → Balanced q
  rest_changes = same_lists core counts laws

  adjusted-Keeps :
      (q : Queue BufferState) (d : ℤ) (k : Queue BufferState → Done BufferState)
      → Balanced q
      → ((q' : Queue BufferState) → Balanced q' → KeepsDone (k q'))
      → KeepsDone (adjusted core q (adjust_available_slots d q) k)
  adjusted-Keeps q d k b h = by_result (adjust_available_slots d q) refl
    where
      by_result :
          (o : Option (Queue BufferState))
          → adjust_available_slots d q ≡ o
          → KeepsDone (adjusted core q o k)
      by_result none e = b
      by_result (some q') e = h q' (laws.adjust-IsBalanced d q q' e b)

  pub set_max_dequeued_buffer_count-Keeps :
      (n : ℤ) (q : Queue BufferState)
      → Balanced q
      → KeepsDone (set_max_dequeued_buffer_count core n q)
  unfolding set_max_dequeued_buffer_count
  set_max_dequeued_buffer_count-Keeps n p h =
      let q = wait_while_allocating p in
      let b = laws.wait-IsBalanced p h in
      let buffers = core.get_min_undequeued_buffer_count q +ℤ n in
      let delta = n -ℤ q.limits.max_dequeued_buffer_count in
      if-keeps KeepsDone q.is_abandoned (λ e. b)
        (λ e.
          if-keeps KeepsDone (eq_ℤ n q.limits.max_dequeued_buffer_count) (λ f. b)
            (λ f.
              if-keeps KeepsDone (ltb_ℤ n (pos (dequeued_count core q))) (λ g. b)
                (λ g.
                  if-keeps KeepsDone (ltb_ℤ (pos core.num_buffer_slots) buffers) (λ i. b)
                    (λ i.
                      if-keeps KeepsDone (ltb_ℤ buffers (core.get_min_max_buffer_count q)) (λ j. b)
                        (λ j.
                          if-keeps KeepsDone (ltb_ℤ q.limits.max_buffer_count buffers) (λ k. b)
                            (λ k.
                              adjusted-Keeps q delta (with_max_dequeued core n delta) b (λ q' b'.
                                rest_changes q' (with_max_dequeued core n delta q').queue refl refl
                                  refl refl refl refl refl b')))))))

  pub set_async_mode-Keeps :
      (async : Bool) (q : Queue BufferState) → Balanced q → KeepsDone (set_async_mode core async q)
  unfolding set_async_mode
  set_async_mode-Keeps async p h =
      let q = wait_while_allocating p in
      let b = laws.wait-IsBalanced p h in
      let l = q.limits in
      let delta =
        core.get_max_buffer_count_of q async l.dequeue_buffer_cannot_block l.max_buffer_count
        -ℤ core.get_max_buffer_count q in
      let buffers =
        l.max_acquired_buffer_count
        +ℤ l.max_dequeued_buffer_count
        +ℤ one_more core (async || l.dequeue_buffer_cannot_block) in
      if-keeps KeepsDone q.is_abandoned (λ e. b)
        (λ e.
          if-keeps KeepsDone (eq_bool async q.limits.async_mode) (λ f. b)
            (λ f.
              if-keeps KeepsDone (ltb_ℤ l.max_buffer_count buffers) (λ g. b)
                (λ g. adjusted-Keeps q delta (with_async_mode core async delta) b (λ q' b'.
                  rest_changes q' (with_async_mode core async delta q').queue refl refl refl refl
                    refl refl refl b'))))

  pub set_dequeue_timeout-Keeps :
      (timeout : ℤ) (q : Queue BufferState)
      → Balanced q
      → KeepsDone (set_dequeue_timeout core timeout q)
  unfolding set_dequeue_timeout
  set_dequeue_timeout-Keeps timeout q b =
      let l = q.limits in
      let cannot_block = if leb_ℤ (pos 0) timeout then false else l.dequeue_buffer_cannot_block in
      let delta =
        core.get_max_buffer_count_of q l.async_mode cannot_block l.max_buffer_count
        -ℤ core.get_max_buffer_count q in
      adjusted-Keeps q delta (with_timeout core timeout cannot_block) b (λ q' b'.
        rest_changes q' (with_timeout core timeout cannot_block q').queue refl refl refl refl refl
          refl refl b')
