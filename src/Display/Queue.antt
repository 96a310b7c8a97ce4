-- ===== src/Display/Queue.antt =====
-- BufferQueueProducer.cpp: the operations that a producer calls on a slot that it owns, and
-- detachNextBuffer. BufferState and the parts of BufferQueueCore that they call are not in the
-- repository: they are the record `Core`.
pub mod State
pub mod Sets
pub mod Wait
pub mod Dequeue
pub mod Attach
pub mod Enqueue
pub mod Limits
pub mod Connect
pub mod Allocate
pub mod Counts
pub mod Balanced
pub mod Pushed
pub mod Finding
pub mod Found
pub mod Kept
pub mod Sent
pub mod Settled
pub mod Linked
pub mod Api
pub mod Taking
pub mod Rising
pub mod Tickets
pub mod InOrder
pub mod Fewer
pub mod Enough
pub mod Consistent
pub mod Calls
pub mod Refused
pub mod Ended
pub mod RoundTrip
pub mod Owners
use osdi_artifact.Prelude.{
  ℕ, ℤ, pos, negsuc, Bool, true, false, not, ◌&&◌, ◌||◌, Option, none, some, List, [], ◌∷◌, ◌++◌,
  if◌then◌else◌, ◌==◌, ltb, eq_ℤ, update,
}
use State.{Slot, Queue, Core, Status, no_error, no_init, bad_value, no_memory, Done}
use Sets.{insert, erase, remove}

-- INVALID_BUFFER_SLOT is -1.
abbrev pub slot_number : Option ℕ → ℤ
slot_number none = negsuc 0
slot_number (some n) = pos n

-- The slot of a number below `size`.
unfoldable pub in_range : ℕ → ℤ → Option ℕ
in_range size (pos n) = if ltb n size then some n else none
in_range size (negsuc n) = none

module _ (core : Core) where
  open core use {
    BufferState, is_free, is_dequeued, is_shared, set_shared, detach_producer, cancel,
    clear_buffer_slot, wait_while_allocating, num_buffer_slots, no_connected_api,
  }

  abbrev pub fail : Status → Queue BufferState → Done BufferState
  fail status q = record {
    status = status;
    queue = q;
    notified = false;
    released = false;
    buf = none;
  }

  -- The first two tests of every operation.
  abbrev pub with_producer : Queue BufferState → Done BufferState → Done BufferState
  with_producer q done =
      if q.is_abandoned
      then fail no_init q
      else if q.connected_api == no_connected_api
      then fail no_init q
      else done

  abbrev pub at_slot : Option ℕ → Queue BufferState → (ℕ → Done BufferState) → Done BufferState
  at_slot none q k = fail bad_value q
  at_slot (some n) q k = k n

  -- The first tests of the slot; `k` goes on from a slot that is dequeued.
  abbrev pub with_dequeued : ℤ → Queue BufferState → (ℕ → Done BufferState) → Done BufferState
  with_dequeued slot q k =
      at_slot (in_range num_buffer_slots slot) q
        (λ n. if not (is_dequeued (q.slots n).buffer_state) then fail bad_value q else k n)

  abbrev pub mark_requested : ℕ → Queue BufferState → Queue BufferState
  mark_requested n q = record q {
    slots = update q.slots n (record (q.slots n) { request_buffer_called = true });
  }

  -- requestBuffer.
  unfoldable pub request_buffer : ℤ → Queue BufferState → Done BufferState
  request_buffer slot q = with_producer q (
      with_dequeued slot q (λ n. record {
        status = no_error;
        queue = mark_requested n q;
        notified = false;
        released = false;
        buf = some (q.slots n).graphic_buffer;
      }))

  -- What detachBuffer changes.
  abbrev pub detach_slot : ℕ → Queue BufferState → Queue BufferState
  detach_slot n q =
      let s = q.slots n in
      let detached = record s { buffer_state = detach_producer s.buffer_state } in
      record q {
        active_buffers = erase n q.active_buffers;
        free_slots = insert n q.free_slots;
        slots = update q.slots n (clear_buffer_slot detached);
      }

  unfoldable pub detach_buffer : ℤ → Queue BufferState → Done BufferState
  detach_buffer slot q = with_producer q (
      if q.shared_buffer_mode || eq_ℤ (slot_number q.shared_buffer_slot) slot
      then fail bad_value q
      else with_dequeued slot q (λ n.
        if not (q.slots n).request_buffer_called then fail bad_value q else record {
          status = no_error;
          queue = detach_slot n q;
          notified = true;
          released = q.consumer_listener;
          buf = none;
        }))

  -- The result of detachNextBuffer: `*outBuffer` and `*outFence` where they are written.
  pub record Detached : Type 0 where
    pub done : Done BufferState
    pub out : Option (Option ℕ × Option ℕ)

  -- What detachNextBuffer does with the first free buffer.
  unfoldable pub detach_front : List ℕ → Queue BufferState → Detached
  detach_front [] q = record { done = fail no_memory q; out = none }
  detach_front (found ∷ fs) q = record {
    done = record {
      status = no_error;
      queue = record q {
        free_buffers = remove found q.free_buffers;
        free_slots = insert found q.free_slots;
        slots = update q.slots found (clear_buffer_slot (q.slots found));
      };
      notified = false;
      released = q.consumer_listener;
      buf = none;
    };
    out = some ((q.slots found).graphic_buffer, (q.slots found).fence);
  }

  -- The Booleans tell whether the pointers `outBuffer` and `outFence` are there.
  unfoldable pub detach_next_buffer : Bool → Bool → Queue BufferState → Detached
  detach_next_buffer out_buffer out_fence q =
      if not out_buffer
      then (record { done = fail bad_value q; out = none })
      else if not out_fence
      then (record { done = fail bad_value q; out = none })
      else if q.is_abandoned
      then (record { done = fail no_init q; out = none })
      else if q.connected_api == no_connected_api
      then (record { done = fail no_init q; out = none })
      else if q.shared_buffer_mode
      then (record { done = fail bad_value q; out = none })
      else (let q' = wait_while_allocating q in detach_front q'.free_buffers q')

  -- What cancelBuffer does to the state of the slot.
  unfoldable pub cancelled : Bool → BufferState → BufferState
  cancelled mode s =
      if not mode && is_free (cancel s) then set_shared false (cancel s) else cancel s

  -- What cancelBuffer changes.
  unfoldable pub cancel_slot : ℕ → Option ℕ → Queue BufferState → Queue BufferState
  cancel_slot n fence q =
      let s = q.slots n in
      let state = cancelled q.shared_buffer_mode s.buffer_state in
      let slots = update q.slots n (record s { buffer_state = state; fence = fence }) in
      if not (is_shared state)
      then (record q {
        slots = slots;
        active_buffers = erase n q.active_buffers;
        free_buffers = q.free_buffers ++ n ∷ [];
      })
      else (record q { slots = slots })

  -- The last of the tests of cancelBuffer, and what follows it.
  abbrev pub cancel_with : ℕ → Option ℕ → Queue BufferState → Done BufferState
  cancel_with n none q = fail bad_value q
  cancel_with n (some fence) q = record {
    status = no_error;
    queue = cancel_slot n (some fence) q;
    notified = true;
    released = false;
    buf = none;
  }

  unfoldable pub cancel_buffer : ℤ → Option ℕ → Queue BufferState → Done BufferState
  cancel_buffer slot fence q = with_producer q (
      if q.shared_buffer_mode
      then fail bad_value q
      else with_dequeued slot q (λ n. cancel_with n fence q))
