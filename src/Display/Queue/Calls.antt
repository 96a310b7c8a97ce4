-- ===== src/Display/Queue/Calls.antt =====
-- Runs of the operations of BufferQueueProducer.cpp that Queue.antt models.
use osdi_artifact.Prelude.{
  ℕ, ℤ, ◌==◌, Bool, true, false, not, ◌||◌, Option, none, some, List, [], ◌∷◌, ◌≡◌, refl, arith,
  if-keeps, eq_ℤ,
}
use osdi_artifact.Display.Queue.State.{Core, Queue, Done}
use osdi_artifact.Display.Queue.{
  Detached, at_slot, in_range, with_producer, with_dequeued, request_buffer, detach_buffer,
  detach_next_buffer, cancel_buffer, slot_number,
}
use osdi_artifact.Display.Queue.Consistent.{
  IsConsistent, Laws, mark_requested-IsConsistent, detach_slot-IsConsistent,
  detach_front-IsConsistent, cancel_slot-IsConsistent,
}

-- A call with its arguments; `detach_next` has whether each of its two pointers is there.
pub data Call : Type 0 where
  request : ℤ → Call
  detach : ℤ → Call
  detach_next : Bool → Bool → Call
  cancel : ℤ → Option ℕ → Call

module _ (core : Core) where
  open core use {BufferState, is_dequeued}

  abbrev pub call : Call → Queue BufferState → Queue BufferState
  call (request slot) q = (request_buffer core slot q).queue
  call (detach slot) q = (detach_buffer core slot q).queue
  call (detach_next out_buffer out_fence) q =
      (detach_next_buffer core out_buffer out_fence q).done.queue
  call (cancel slot fence) q = (cancel_buffer core slot fence q).queue

  abbrev pub run : List Call → Queue BufferState → Queue BufferState
  run [] q = q
  run (c ∷ cs) q = run cs (call c q)

  -- A property of the queue that a call may lose only where it has got past its tests.
  module _ (P : Queue BufferState → Type 0) where
    abbrev pub Keeps : Done BufferState → Type 0
    Keeps d = P d.queue

    pub with_producer-keeps :
        (q : Queue BufferState) (done : Done BufferState)
        → P q
        → P done.queue
        → P (with_producer core q done).queue
    with_producer-keeps q done p d =
        if-keeps Keeps q.is_abandoned (λ e. p)
          (λ e. if-keeps Keeps (q.connected_api == core.no_connected_api) (λ f. p) (λ f. d))

    at_slot-keeps :
        (o : Option ℕ) (q : Queue BufferState) (k : ℕ → Done BufferState)
        → P q
        → ((n : ℕ) → P (k n).queue)
        → P (at_slot core o q k).queue
    at_slot-keeps none q k p d = p
    at_slot-keeps (some n) q k p d = d n

    pub with_dequeued-keeps :
        (slot : ℤ) (q : Queue BufferState) (k : ℕ → Done BufferState)
        → P q
        → ((n : ℕ) → is_dequeued (q.slots n).buffer_state ≡ true → P (k n).queue)
        → P (with_dequeued core slot q k).queue
    with_dequeued-keeps slot q k p d =
        at_slot-keeps (in_range core.num_buffer_slots slot) q _ p (λ n.
          if-keeps Keeps (not (is_dequeued (q.slots n).buffer_state)) (λ e. p)
            (λ e. d n (ground (arith, e))))

module _ (core : Core) (laws : Laws core) where
  open core use {BufferState, wait_while_allocating}

  abbrev Fine : Queue BufferState → Type 0
  Fine = IsConsistent core

  request_buffer-IsConsistent :
      (slot : ℤ) (q : Queue BufferState) → Fine q → Fine (request_buffer core slot q).queue
  unfolding request_buffer
  request_buffer-IsConsistent slot q c = with_producer-keeps core Fine q _ c (
      with_dequeued-keeps core Fine slot q _ c (λ n h. mark_requested-IsConsistent core laws n q c))

  detach_buffer-IsConsistent :
      (slot : ℤ) (q : Queue BufferState) → Fine q → Fine (detach_buffer core slot q).queue
  unfolding detach_buffer
  detach_buffer-IsConsistent slot q c = with_producer-keeps core Fine q _ c (
      if-keeps (Keeps core Fine)
        (q.shared_buffer_mode || eq_ℤ (slot_number q.shared_buffer_slot) slot) (λ e. c)
        (λ e. with_dequeued-keeps core Fine slot q _ c (λ n h.
          if-keeps (Keeps core Fine) (not (q.slots n).request_buffer_called) (λ f. c)
            (λ f. detach_slot-IsConsistent core laws n q c h))))

  detach_next_buffer-IsConsistent :
      (out_buffer out_fence : Bool) (q : Queue BufferState)
      → Fine q
      → Fine (detach_next_buffer core out_buffer out_fence q).done.queue
  unfolding detach_next_buffer
  detach_next_buffer-IsConsistent false out_fence q c = c
  detach_next_buffer-IsConsistent true false q c = c
  detach_next_buffer-IsConsistent true true q c =
      let q' = wait_while_allocating q in
      let P : Detached core → Type 0 = λ d. Fine d.done.queue in
      if-keeps P q.is_abandoned (λ e. c)
        (λ e.
          if-keeps P (q.connected_api == core.no_connected_api) (λ f. c)
            (λ f.
              if-keeps P q.shared_buffer_mode (λ g. c)
                (λ g.
                  detach_front-IsConsistent core laws q'.free_buffers q' refl
                    (laws.wait-IsConsistent q c))))

  cancel_buffer-IsConsistent :
      (slot : ℤ) (fence : Option ℕ) (q : Queue BufferState)
      → Fine q
      → Fine (cancel_buffer core slot fence q).queue
  unfolding cancel_buffer
  cancel_buffer-IsConsistent slot none q c = with_producer-keeps core Fine q _ c (
      if-keeps (Keeps core Fine) q.shared_buffer_mode (λ e. c)
        (λ e. with_dequeued-keeps core Fine slot q _ c (λ n h. c)))
  cancel_buffer-IsConsistent slot (some f) q c = with_producer-keeps core Fine q _ c (
      if-keeps (Keeps core Fine) q.shared_buffer_mode (λ e. c)
        (λ e.
          with_dequeued-keeps core Fine slot q _ c
            (λ n h. cancel_slot-IsConsistent core laws n (some f) q e c h)))

  -- For a core with its documented laws, after any calls of requestBuffer, detachBuffer,
  -- detachNextBuffer and cancelBuffer, whether they succeed or fail, a consistent queue is
  -- consistent: a slot is in one list at most, one that is not free is active, an active one is not
  -- free unless it is shared, and a slot of free_slots has no buffer.
  pub run-IsConsistent :
      (cs : List Call) (q : Queue BufferState)
      → IsConsistent core q
      → IsConsistent core (run core cs q)
  run-IsConsistent [] q c = c
  run-IsConsistent (request slot ∷ cs) q c =
      run-IsConsistent cs _ (request_buffer-IsConsistent slot q c)
  run-IsConsistent (detach slot ∷ cs) q c =
      run-IsConsistent cs _ (detach_buffer-IsConsistent slot q c)
  run-IsConsistent (detach_next out_buffer out_fence ∷ cs) q c =
      run-IsConsistent cs _ (detach_next_buffer-IsConsistent out_buffer out_fence q c)
  run-IsConsistent (cancel slot fence ∷ cs) q c =
      run-IsConsistent cs _ (cancel_buffer-IsConsistent slot fence q c)
