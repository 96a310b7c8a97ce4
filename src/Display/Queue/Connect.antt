-- ===== src/Display/Queue/Connect.antt =====
-- connect and disconnect of BufferQueueProducer.cpp, with setSidebandStream.
use osdi_artifact.Prelude.{
  ℕ, ◌%◌, ◌^◌, ◌==◌, ℤ, pos, negsuc, ◌-ℤ◌, ltb_ℤ, leb_ℤ, eq_ℤ, Bool, true, false, not, ◌&&◌, ◌||◌,
  Option, none, some, length, if◌then◌else◌,
}
use osdi_artifact.Display.Queue.State.{
  Queue, Link, Core, Status, no_error, no_init, bad_value, other_error,
}
use osdi_artifact.Display.Queue.Enqueue.{Output, next_frame}

-- A producer's listener as connect sees it: whether it is remote, what linkToDeath returns (`none`
-- is NO_ERROR), and what needsReleaseNotify does.
pub record Listener : Type 0 where
  pub reference : ℕ
  pub is_remote : Bool
  pub link_to_death : Option ℕ
  pub needs_release_notify : Bool

pub data DisconnectMode : Type 0 where
  of_api all_local : DisconnectMode

module _ (core : Core) where
  open core use {
    BufferState, wait_while_allocating, get_max_buffer_count, get_max_buffer_count_of,
    adjust_available_slots, free_all_buffers, constants, no_connected_api,
  }

  unfoldable pub is_known_api : ℕ → Bool
  is_known_api api =
      api == constants.api_egl
      || api == constants.api_cpu
      || api == constants.api_media
      || api == constants.api_camera

  -- The status, the queue, and `*output` where connect writes it.
  pub record Connected : Type 0 where
    pub status : Status
    pub queue : Queue BufferState
    pub output : Option Output

  abbrev pub decline : Status → Queue BufferState → Connected
  decline status q = record { status = status; queue = q; output = none }

  abbrev pub error_or : Option ℕ → Status
  error_or none = no_error
  error_or (some code) = other_error code

  abbrev pub link_status : Option Listener → Status
  link_status none = no_error
  link_status (some l) = if l.is_remote then error_or l.link_to_death else no_error

  -- What connect keeps of the listener; a failed linkToDeath is kept too.
  abbrev pub with_listener : Option Listener → Link → Link
  with_listener none k = k
  with_listener (some l) k = record k {
    linked_to_death = if l.is_remote then some l.reference else k.linked_to_death;
    connected_producer_listener = some l.reference;
    buffer_released_cb_enabled = l.needs_release_notify;
  }

  -- What connect sets whether it knows the API or not.
  unfoldable pub reset_flags : ℤ → Bool → Queue BufferState → Queue BufferState
  reset_flags pid by_app q =
      let both = q.consumer_controlled_by_app && by_app in
      record q {
        link = record q.link { connected_pid = pid };
        buffer_has_been_queued = false;
        limits = record q.limits {
          dequeue_buffer_cannot_block = both && ltb_ℤ q.dequeue_timeout (pos 0);
        };
        queue_buffer_can_drop = both && leb_ℤ q.dequeue_timeout (pos 0);
        legacy_buffer_drop = true;
        allow_allocation = true;
      }

  abbrev pub current_output : Queue BufferState → Output
  current_output q = record {
    width = q.defaults.width;
    height = q.defaults.height;
    transform_hint = q.defaults.transform_hint;
    num_pending_buffers = length q.queue % 2 ^ 32;
    next_frame_number = next_frame q.frame_counter;
    buffer_replaced = false;
  }

  abbrev pub connect_adjusted :
      Option Listener → ℕ → Bool → ℤ → Queue BufferState → Option (Queue BufferState) → Connected
  connect_adjusted listener api by_app pid q none = decline bad_value q
  connect_adjusted listener api by_app pid q (some q') =
      if is_known_api api
      then (record {
        status = link_status listener;
        queue =
            reset_flags pid by_app
              (record q' { connected_api = api; link = with_listener listener q'.link });
        output = some (current_output q');
      })
      else (record { status = bad_value; queue = reset_flags pid by_app q'; output = none })

  -- `out` tells whether the pointer `output` is there; `pid` is the caller's.
  unfoldable pub connect : Option Listener → ℕ → Bool → Bool → ℤ → Queue BufferState → Connected
  connect listener api by_app out pid q =
      let l = q.limits in
      let cannot_block =
        if ltb_ℤ q.dequeue_timeout (pos 0) then q.consumer_controlled_by_app && by_app else false in
      let delta =
        get_max_buffer_count_of q l.async_mode cannot_block l.max_buffer_count
        -ℤ get_max_buffer_count q in
      if q.is_abandoned
      then decline no_init q
      else if not q.consumer_listener
      then decline no_init q
      else if not out
      then decline bad_value q
      else if not (q.connected_api == no_connected_api)
      then decline bad_value q
      else connect_adjusted listener api by_app pid q (adjust_available_slots delta q)

  -- The status and the queue, and whether the consumer is told.
  pub record Disconnected : Type 0 where
    pub status : Status
    pub queue : Queue BufferState
    pub released : Bool

  abbrev pub end : Status → Queue BufferState → Disconnected
  end status q = record { status = status; queue = q; released = false }

  unfoldable pub free_connection : Queue BufferState → Queue BufferState
  free_connection q =
      let q' = free_all_buffers q in
      record q' {
        shared_buffer_slot = none;
        connected_api = no_connected_api;
        link = record q'.link {
          linked_to_death = none;
          connected_producer_listener = none;
          connected_pid = negsuc 0;
          sideband_stream = none;
        };
      }

  abbrev pub disconnect_api : ℕ → Queue BufferState → Disconnected
  disconnect_api api q =
      if is_known_api api
      then (if q.connected_api == api
          then (record {
            status = no_error;
            queue = free_connection q;
            released = (free_connection q).consumer_listener;
          })
          else if q.connected_api == no_connected_api
          then end no_init q
          else end bad_value q)
      else end bad_value q

  abbrev pub disconnect_locked : ℕ → Queue BufferState → Disconnected
  disconnect_locked api q =
      if q.is_abandoned
      then end no_error q
      else if api == constants.currently_connected_api
      then (if q.connected_api == no_connected_api
          then end no_error q
          else disconnect_api q.connected_api q)
      else disconnect_api api q

  -- `pid` is the caller's.
  unfoldable pub disconnect : ℕ → DisconnectMode → ℤ → Queue BufferState → Disconnected
  disconnect api of_api pid q = disconnect_locked api (wait_while_allocating q)
  disconnect api all_local pid q =
      if not (eq_ℤ pid q.link.connected_pid)
      then end no_error q
      else disconnect_locked constants.currently_connected_api (wait_while_allocating q)

  -- The Boolean tells whether the listener is called.
  unfoldable pub set_sideband_stream : Option ℕ → Queue BufferState → Queue BufferState × Bool
  set_sideband_stream stream q =
      (record q { link = record q.link { sideband_stream = stream } }, q.consumer_listener)
