-- ===== src/Display/Queue/Ended.antt =====
-- BufferQueueProducer.cpp: a slot that cancelBuffer has given back is no longer the producer's.
use osdi_artifact.Prelude.{
  ℕ, ℤ, pos, ◌==◌, Bool, true, false, not, ◌||◌, Option, none, some, List, [], ◌∷◌, ◌≡◌, sym, subst,
  ltb, arith, if-keeps, if◌then◌else◌, eq_ℤ,
}
use osdi_artifact.Display.Queue.State.{Core, Queue, Done, no_error, bad_value, Slot}
use osdi_artifact.Display.Queue.{
  cancel_with, Detached, at_slot, in_range, fail, request_buffer, detach_buffer, detach_next_buffer,
  detach_front, cancel_buffer, cancel_slot, cancelled, slot_number,
}
use osdi_artifact.Display.Queue.Consistent.{IsConsistent, Laws}
use osdi_artifact.Display.Queue.Calls.{
  Call, request, detach, detach_next, run, Keeps, with_producer-keeps, with_dequeued-keeps,
}
use osdi_artifact.Display.Queue.Refused.{
  NotDequeued, IsRefused, request_buffer-IsRefused, detach_buffer-IsRefused,
  cancel_buffer-IsRefused,
}

module _ (core : Core) (laws : Laws core) where
  open core use {
    BufferState, is_dequeued, is_free, is_shared, clear_buffer_slot, wait_while_allocating,
  }

  not_dequeued : (s : BufferState) → is_free s ≡ true → is_dequeued s ≡ false
  not_dequeued s h = ground (arith, laws.is_free-is_dequeued s)

  cleared : (s : Slot BufferState) → is_dequeued (clear_buffer_slot s).buffer_state ≡ false
  cleared s = not_dequeued _ (laws.is_free-clear s)

  -- A slot that has been cancelled, whoever else calls.
  module _ (n : ℕ) where
    abbrev Kept : Queue BufferState → Type 0
    Kept = NotDequeued core n

    request_buffer-NotDequeued :
        (slot : ℤ) (q : Queue BufferState) → Kept q → Kept (request_buffer core slot q).queue
    unfolding request_buffer
    request_buffer-NotDequeued slot q h =
        with_producer-keeps core Kept q _ h
          (with_dequeued-keeps core Kept slot q _ h (λ m g. ground arith))

    detach_buffer-NotDequeued :
        (slot : ℤ) (q : Queue BufferState) → Kept q → Kept (detach_buffer core slot q).queue
    unfolding detach_buffer
    detach_buffer-NotDequeued slot q h = with_producer-keeps core Kept q _ h (
        if-keeps (Keeps core Kept)
          (q.shared_buffer_mode || eq_ℤ (slot_number q.shared_buffer_slot) slot) (λ e. h)
          (λ e. with_dequeued-keeps core Kept slot q _ h (λ m g.
            if-keeps (Keeps core Kept) (not (q.slots m).request_buffer_called) (λ f. h)
              (λ f. ground arith))))

    cancel_slot-NotDequeued :
        (m : ℕ) (fence : Option ℕ) (q : Queue BufferState)
        → Kept q
        → is_dequeued (q.slots m).buffer_state ≡ true
        → Kept (cancel_slot core m fence q)
    unfolding cancel_slot
    cancel_slot-NotDequeued m fence q h g =
        if-keeps Kept
          (not (is_shared (cancelled core q.shared_buffer_mode (q.slots m).buffer_state)))
          (λ e. ground arith) (λ e. ground arith)

    cancel_buffer-NotDequeued :
        (slot : ℤ) (fence : Option ℕ) (q : Queue BufferState)
        → Kept q
        → Kept (cancel_buffer core slot fence q).queue
    unfolding cancel_buffer
    cancel_buffer-NotDequeued slot none q h = with_producer-keeps core Kept q _ h (
        if-keeps (Keeps core Kept) q.shared_buffer_mode (λ e. h)
          (λ e. with_dequeued-keeps core Kept slot q _ h (λ m g. h)))
    cancel_buffer-NotDequeued slot (some f) q h = with_producer-keeps core Kept q _ h (
        if-keeps (Keeps core Kept) q.shared_buffer_mode (λ e. h)
          (λ e.
            with_dequeued-keeps core Kept slot q _ h
              (λ m g. cancel_slot-NotDequeued m (some f) q h g)))

    detach_front-NotDequeued :
        (fs : List ℕ) (q : Queue BufferState) → Kept q → Kept (detach_front core fs q).done.queue
    unfolding detach_front
    detach_front-NotDequeued [] q h = h
    detach_front-NotDequeued (found ∷ fs) q h =
        if-keeps (λ (s : Slot BufferState). is_dequeued s.buffer_state ≡ false) (found == n)
          (λ e. cleared (q.slots found)) (λ e. h)

    detach_next_buffer-NotDequeued :
        (out_buffer out_fence : Bool) (q : Queue BufferState)
        → wait_while_allocating q ≡ q
        → Kept q
        → Kept (detach_next_buffer core out_buffer out_fence q).done.queue
    unfolding detach_next_buffer
    detach_next_buffer-NotDequeued false out_fence q w h = h
    detach_next_buffer-NotDequeued true false q w h = h
    detach_next_buffer-NotDequeued true true q w h =
        let P : Detached core → Type 0 = λ d. Kept d.done.queue in
        if-keeps P q.is_abandoned (λ e. h)
          (λ e.
            if-keeps P (q.connected_api == core.no_connected_api) (λ f. h)
              (λ f.
                if-keeps P q.shared_buffer_mode (λ g. h)
                  (λ g.
                    subst (λ q'. Kept (detach_front core q'.free_buffers q').done.queue) (sym w)
                      (detach_front-NotDequeued q.free_buffers q h))))

    run-NotDequeued :
        ((q : Queue BufferState) → wait_while_allocating q ≡ q)
        → (cs : List Call) (q : Queue BufferState) → Kept q
        → Kept (run core cs q)
    run-NotDequeued w [] q h = h
    run-NotDequeued w (request slot ∷ cs) q h =
        run-NotDequeued w cs _ (request_buffer-NotDequeued slot q h)
    run-NotDequeued w (detach slot ∷ cs) q h =
        run-NotDequeued w cs _ (detach_buffer-NotDequeued slot q h)
    run-NotDequeued w (detach_next out_buffer out_fence ∷ cs) q h =
        run-NotDequeued w cs _ (detach_next_buffer-NotDequeued out_buffer out_fence q (w q) h)
    run-NotDequeued w (Call.cancel slot fence ∷ cs) q h =
        run-NotDequeued w cs _ (cancel_buffer-NotDequeued slot fence q h)

  -- A slot that is not shared is free once it is cancelled.
  cancel_slot-Kept :
      (n : ℕ) (fence : Option ℕ) (q : Queue BufferState)
      → IsConsistent core q
      → is_shared (q.slots n).buffer_state ≡ false
      → is_dequeued (q.slots n).buffer_state ≡ true
      → NotDequeued core n (cancel_slot core n fence q)
  unfolding cancel_slot cancelled
  cancel_slot-Kept n fence q c s h =
      let state = (q.slots n).buffer_state in
      let free = laws.is_free-cancel state (c.all_valid n) h s in
      let ended = not_dequeued (core.cancel state) free in
      let free' = laws.is_free-set_shared false (core.cancel state) in
      let ended' = not_dequeued (core.set_shared false (core.cancel state)) in
      let is_ended : is_dequeued (cancelled core q.shared_buffer_mode state) ≡ false =
        ground (arith, free, ended, free', ended') in
      if-keeps (NotDequeued core n) (not (is_shared (cancelled core q.shared_buffer_mode state)))
        (λ e. ground (arith, is_ended)) (λ e. ground (arith, is_ended))

  abbrev Ends : ℕ → Done BufferState → Type 0
  Ends n d = d.status ≡ no_error → NotDequeued core n d.queue

  cancel_with-Ends :
      (n : ℕ) (fence : Option ℕ) (q : Queue BufferState)
      → IsConsistent core q
      → is_shared (q.slots n).buffer_state ≡ false
      → is_dequeued (q.slots n).buffer_state ≡ true
      → Ends n (cancel_with core n fence q)
  cancel_with-Ends n none q c s d h = absurd (ground arith)
  cancel_with-Ends n (some fence) q c s d h = cancel_slot-Kept n (some fence) q c s d

  cancel_buffer-Ends :
      (n : ℕ) (fence : Option ℕ) (q : Queue BufferState)
      → IsConsistent core q
      → is_shared (q.slots n).buffer_state ≡ false
      → Ends n (cancel_buffer core (pos n) fence q)
  unfolding cancel_buffer in_range
  cancel_buffer-Ends n fence q c s =
      let P = Ends n in
      if-keeps P q.is_abandoned (λ e h. absurd (ground arith))
        (λ e.
          if-keeps P (q.connected_api == core.no_connected_api) (λ f h. absurd (ground arith))
            (λ f.
              if-keeps P q.shared_buffer_mode (λ g h. absurd (ground arith))
                (λ g.
                  if-keeps
                    (λ o. P (
                      at_slot core o q (λ m.
                        if not (is_dequeued (q.slots m).buffer_state)
                        then fail core bad_value q
                        else cancel_with core m fence q)))
                    (ltb n core.num_buffer_slots)
                    (λ b.
                      if-keeps P (not (is_dequeued (q.slots n).buffer_state))
                        (λ d h. absurd (ground arith))
                        (λ d. cancel_with-Ends n fence q c s (ground (arith, d))))
                    (λ b h. absurd (ground arith)))))

  -- On a consistent queue, where no call has to wait for an allocation: once cancelBuffer has
  -- succeeded on a slot that is not shared, then after any further calls of requestBuffer,
  -- detachBuffer, detachNextBuffer and cancelBuffer, requestBuffer, detachBuffer and cancelBuffer
  -- fail on this slot and leave the queue as it is.
  pub cancel_buffer-run :
      (n : ℕ) (fence : Option ℕ) (q : Queue BufferState) (cs : List Call) (f : Option ℕ)
      → ((q' : Queue BufferState) → wait_while_allocating q' ≡ q')
      → IsConsistent core q
      → is_shared (q.slots n).buffer_state ≡ false
      → (cancel_buffer core (pos n) fence q).status ≡ no_error
      → let q' = run core cs (cancel_buffer core (pos n) fence q).queue in
        IsRefused core q' (request_buffer core (pos n) q')
        × IsRefused core q' (detach_buffer core (pos n) q')
        × IsRefused core q' (cancel_buffer core (pos n) f q')
  cancel_buffer-run n fence q cs f w c s h =
      let q' = run core cs (cancel_buffer core (pos n) fence q).queue in
      let ended = run-NotDequeued n w cs _ (cancel_buffer-Ends n fence q c s h) in
      (
        request_buffer-IsRefused core n q' ended,
        detach_buffer-IsRefused core n q' ended,
        cancel_buffer-IsRefused core n f q' ended,
      )
