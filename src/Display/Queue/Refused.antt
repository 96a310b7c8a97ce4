-- ===== src/Display/Queue/Refused.antt =====
-- BufferQueueProducer.cpp: the calls that test that the producer owns the slot.
use osdi_artifact.Prelude.{
  ℕ, pos, ◌==◌, false, not, ◌||◌, Option, ◌≡◌, ◌≢◌, refl, ltb, arith, if-keeps, if◌then◌else◌, eq_ℤ,
}
use osdi_artifact.Display.Queue.State.{Core, Queue, Done, no_error, no_init, bad_value}
use osdi_artifact.Display.Queue.{
  at_slot, in_range, fail, with_producer, with_dequeued, request_buffer, detach_buffer,
  cancel_buffer, slot_number,
}

module _ (core : Core) where
  open core use {BufferState, is_dequeued, is_free, is_shared, wait_while_allocating}

  abbrev pub NotDequeued : ℕ → Queue BufferState → Type 0
  NotDequeued n q = is_dequeued (q.slots n).buffer_state ≡ false

  -- A call that fails and leaves the queue as it is.
  abbrev pub IsRefused : Queue BufferState → Done BufferState → Type 0
  IsRefused q d = (d.status ≢ no_error) × (d.queue ≡ q)

  no_init≢no_error : no_init ≢ no_error
  no_init≢no_error h = absurd (ground arith)

  bad_value≢no_error : bad_value ≢ no_error
  bad_value≢no_error h = absurd (ground arith)

  with_producer-IsRefused :
      (q : Queue BufferState) (d : Done BufferState)
      → IsRefused q d
      → IsRefused q (with_producer core q d)
  with_producer-IsRefused q d h =
      if-keeps (IsRefused q) q.is_abandoned (λ e. (no_init≢no_error, refl))
        (λ e.
          if-keeps (IsRefused q) (q.connected_api == core.no_connected_api)
            (λ f. (no_init≢no_error, refl)) (λ f. h))

  with_dequeued-IsRefused :
      (n : ℕ) (q : Queue BufferState) (k : ℕ → Done BufferState)
      → NotDequeued n q
      → IsRefused q (with_dequeued core (pos n) q k)
  unfolding in_range
  with_dequeued-IsRefused n q k h =
      if-keeps
        (λ o. IsRefused q (
          at_slot core o q (λ m.
            if not (is_dequeued (q.slots m).buffer_state) then fail core bad_value q else k m)))
        (ltb n core.num_buffer_slots)
        (λ e.
          if-keeps (IsRefused q) (not (is_dequeued (q.slots n).buffer_state))
            (λ f. (bad_value≢no_error, refl)) (λ f. absurd (ground arith)))
        (λ e. (bad_value≢no_error, refl))

  pub request_buffer-IsRefused :
      (n : ℕ) (q : Queue BufferState)
      → NotDequeued n q
      → IsRefused q (request_buffer core (pos n) q)
  unfolding request_buffer
  request_buffer-IsRefused n q h = with_producer-IsRefused q _ (with_dequeued-IsRefused n q _ h)

  pub detach_buffer-IsRefused :
      (n : ℕ) (q : Queue BufferState) → NotDequeued n q → IsRefused q (detach_buffer core (pos n) q)
  unfolding detach_buffer
  detach_buffer-IsRefused n q h = with_producer-IsRefused q _ (
      if-keeps (IsRefused q)
        (q.shared_buffer_mode || eq_ℤ (slot_number q.shared_buffer_slot) (pos n))
        (λ e. (bad_value≢no_error, refl)) (λ e. with_dequeued-IsRefused n q _ h))

  pub cancel_buffer-IsRefused :
      (n : ℕ) (fence : Option ℕ) (q : Queue BufferState)
      → NotDequeued n q
      → IsRefused q (cancel_buffer core (pos n) fence q)
  unfolding cancel_buffer
  cancel_buffer-IsRefused n fence q h = with_producer-IsRefused q _ (
      if-keeps (IsRefused q) q.shared_buffer_mode (λ e. (bad_value≢no_error, refl))
        (λ e. with_dequeued-IsRefused n q _ h))
