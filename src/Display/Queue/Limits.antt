-- ===== src/Display/Queue/Limits.antt =====
-- BufferQueueProducer.cpp: the operations that change how many buffers there may be, the plain
-- setters, and query.
use osdi_artifact.Prelude.{
  ℕ, ◌-◌, ◌%◌, ◌^◌, ltb, ℤ, pos, negsuc, ◌+ℤ◌, ◌-ℤ◌, ltb_ℤ, leb_ℤ, eq_ℤ, is_neg, Bool, true, false,
  not, ◌&&◌, ◌||◌, Option, none, some, length, if◌then◌else◌,
}
use osdi_artifact.Display.Queue.State.{Queue, Core, Status, no_error, no_init, bad_value, Done}
use osdi_artifact.Display.Queue.{fail}
use osdi_artifact.Display.Queue.Wait.{dequeued_count}

abbrev pub eq_bool : Bool → Bool → Bool
eq_bool true b = b
eq_bool false b = not b

module _ (core : Core) where
  open core use {
    BufferState, wait_while_allocating, get_min_undequeued_buffer_count, get_min_max_buffer_count,
    get_max_buffer_count, get_max_buffer_count_of, adjust_available_slots, num_buffer_slots,
  }

  -- A call that succeeds: `wakes` mDequeueCondition or not, and calls onBuffersReleased or not.
  abbrev pub succeed : Bool → Bool → Queue BufferState → Done BufferState
  succeed wakes released q = record {
    status = no_error;
    queue = q;
    notified = wakes;
    released = released;
    buf = none;
  }

  -- What follows adjustAvailableSlotsLocked where it returns true.
  abbrev pub adjusted :
      Queue BufferState
      → Option (Queue BufferState)
      → (Queue BufferState → Done BufferState)
      → Done BufferState
  adjusted q none k = fail core bad_value q
  adjusted q (some q') k = k q'

  abbrev pub with_max_dequeued : ℤ → ℤ → Queue BufferState → Done BufferState
  with_max_dequeued n delta q =
      succeed true (is_neg delta && q.consumer_listener)
        (record q { limits = record q.limits { max_dequeued_buffer_count = n } })

  abbrev pub set_max_dequeued_locked : ℤ → Queue BufferState → Done BufferState
  set_max_dequeued_locked n q =
      let buffers = get_min_undequeued_buffer_count q +ℤ n in
      let delta = n -ℤ q.limits.max_dequeued_buffer_count in
      if q.is_abandoned
      then fail core no_init q
      else if eq_ℤ n q.limits.max_dequeued_buffer_count
      then succeed false false q
      else if ltb_ℤ n (pos (dequeued_count core q))
      then fail core bad_value q
      else if ltb_ℤ (pos num_buffer_slots) buffers
      then fail core bad_value q
      else if ltb_ℤ buffers (get_min_max_buffer_count q)
      then fail core bad_value q
      else if ltb_ℤ q.limits.max_buffer_count buffers
      then fail core bad_value q
      else adjusted q (adjust_available_slots delta q) (with_max_dequeued n delta)

  unfoldable pub set_max_dequeued_buffer_count : ℤ → Queue BufferState → Done BufferState
  set_max_dequeued_buffer_count n q = set_max_dequeued_locked n (wait_while_allocating q)

  abbrev pub one_more : Bool → ℤ
  one_more true = pos 1
  one_more false = pos 0

  abbrev pub with_async_mode : Bool → ℤ → Queue BufferState → Done BufferState
  with_async_mode async delta q =
      succeed true (is_neg delta && q.consumer_listener)
        (record q { limits = record q.limits { async_mode = async } })

  abbrev pub set_async_mode_locked : Bool → Queue BufferState → Done BufferState
  set_async_mode_locked async q =
      let l = q.limits in
      let delta =
        get_max_buffer_count_of q async l.dequeue_buffer_cannot_block l.max_buffer_count
        -ℤ get_max_buffer_count q in
      if q.is_abandoned
      then fail core no_init q
      else if eq_bool async l.async_mode
      then succeed false false q
      else if ltb_ℤ l.max_buffer_count (
          l.max_acquired_buffer_count
          +ℤ l.max_dequeued_buffer_count
          +ℤ one_more (async || l.dequeue_buffer_cannot_block))
      then fail core bad_value q
      else adjusted q (adjust_available_slots delta q) (with_async_mode async delta)

  unfoldable pub set_async_mode : Bool → Queue BufferState → Done BufferState
  set_async_mode async q = set_async_mode_locked async (wait_while_allocating q)

  abbrev pub with_timeout : ℤ → Bool → Queue BufferState → Done BufferState
  with_timeout timeout cannot_block q = succeed false false (record q {
    dequeue_timeout = timeout;
    limits = record q.limits { dequeue_buffer_cannot_block = cannot_block };
    queue_buffer_can_drop = if ltb_ℤ (pos 0) timeout then false else q.queue_buffer_can_drop;
  })

  unfoldable pub set_dequeue_timeout : ℤ → Queue BufferState → Done BufferState
  set_dequeue_timeout timeout q =
      let l = q.limits in
      let cannot_block = if leb_ℤ (pos 0) timeout then false else l.dequeue_buffer_cannot_block in
      let delta =
        get_max_buffer_count_of q l.async_mode cannot_block l.max_buffer_count
        -ℤ get_max_buffer_count q in
      adjusted q (adjust_available_slots delta q) (with_timeout timeout cannot_block)

  unfoldable pub set_shared_buffer_mode : Bool → Queue BufferState → Queue BufferState
  set_shared_buffer_mode mode q = record q {
    shared_buffer_slot = if mode then q.shared_buffer_slot else none;
    shared_buffer_mode = mode;
  }

  unfoldable pub allow_allocation : Bool → Queue BufferState → Queue BufferState
  allow_allocation allow q = record q { allow_allocation = allow }

  unfoldable pub set_generation_number : ℕ → Queue BufferState → Queue BufferState
  set_generation_number n q = record q { generation_number = n }

  unfoldable pub set_auto_refresh : Bool → Queue BufferState → Queue BufferState
  set_auto_refresh auto q = record q { auto_refresh = auto }

  unfoldable pub set_legacy_buffer_drop : Bool → Queue BufferState → Queue BufferState
  set_legacy_buffer_drop drop q = record q { legacy_buffer_drop = drop }

  -- The values of `what` that query knows.
  pub data Question : Type 0 where
    width height format layer_count min_undequeued_buffers sticky_transform : Question
    consumer_running_behind consumer_usage_bits default_dataspace buffer_age : Question
    consumer_is_protected max_buffer_count other : Question

  -- static_cast<int32_t> of an unsigned number.
  abbrev pub int32 : ℕ → ℤ
  int32 n = let w = n % 2 ^ 32 in if ltb w (2 ^ 31) then pos w else negsuc (2 ^ 32 - w - 1)

  abbrev pub bit : Bool → ℤ
  bit true = pos 1
  bit false = pos 0

  unfoldable pub value_of : Question → Queue BufferState → Option ℤ
  value_of width q = some (int32 q.defaults.width)
  value_of height q = some (int32 q.defaults.height)
  value_of format q = some (int32 q.defaults.format)
  value_of layer_count q = some (pos 1)
  value_of min_undequeued_buffers q = some (get_min_undequeued_buffer_count q)
  value_of sticky_transform q = some (int32 q.sticky_transform)
  value_of consumer_running_behind q = some (bit (ltb 1 (length q.queue)))
  value_of consumer_usage_bits q = some (int32 q.defaults.consumer_usage_bits)
  value_of default_dataspace q = some (int32 q.defaults.data_space)
  value_of buffer_age q = some (if ltb (2 ^ 31 - 1) q.buffer_age then pos 0 else int32 q.buffer_age)
  value_of consumer_is_protected q = some (bit q.defaults.is_protected)
  value_of max_buffer_count q = some q.limits.max_buffer_count
  value_of other q = none

  abbrev pub answered : Option ℤ → Status × Option ℤ
  answered none = (bad_value, none)
  answered (some v) = (no_error, some v)

  -- The status, and `*outValue` where it is written; the Boolean tells whether the pointer is there.
  unfoldable pub query : Bool → Question → Queue BufferState → Status × Option ℤ
  query out what q =
      if not out
      then (bad_value, none)
      else if q.is_abandoned
      then (no_init, none)
      else answered (value_of what q)
