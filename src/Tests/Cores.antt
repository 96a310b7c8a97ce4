-- ===== src/Tests/Cores.antt =====
-- A core whose states count the owners of a slot, for BufferQueueProducer.cpp, and a queue of it.
use osdi_artifact.Prelude.{
  ℤ, leb_ℤ, not, ℕ, ◌+◌, ◌-◌, ◌==◌, ltb, Bool, true, false, ◌||◌, pos, [], ◌∷◌, none, some, ◌≡◌,
  refl, negsuc, if◌then◌else◌,
}
use osdi_artifact.Display.Queue.State.{Rect, Core, Queue, Slot}
use osdi_artifact.Display.Queue.Counts.{View, total, Counts}

-- The counts of BufferSlot.h.
abbrev pub free_state : View
free_state = record { dequeues = 0; queues = 0; acquires = 0; shared = false }

abbrev pub one_owner : View → Bool
one_owner s = s.shared || ltb (total s) 2

abbrev pub cleared_slot : Slot View
cleared_slot = record {
  buffer_state = free_state;
  graphic_buffer = none;
  request_buffer_called = false;
  fence = none;
  frame_number = 0;
  acquire_called = false;
  needs_reallocation = true;
  egl_display = 0;
  egl_fence = none;
}

abbrev pub min_ℤ : ℤ → ℤ → ℤ
min_ℤ a b = if leb_ℤ a b then a else b

abbrev pub max_ℤ : ℤ → ℤ → ℤ
max_ℤ a b = if leb_ℤ a b then b else a

-- A buffer `b` is as wide as `b` and as high; adjustAvailableSlotsLocked succeeds.

abbrev pub core : Core
core = record {
  BufferState = View;
  IsValid = λ s. one_owner s ≡ true;
  is_free = λ s. total s == 0;
  is_dequeued = λ s. ltb 0 s.dequeues;
  is_acquired = λ s. ltb 0 s.acquires;
  is_shared = λ s. s.shared;
  dequeue = λ s. record s { dequeues = s.dequeues + 1 };
  enqueue = λ s. record s { dequeues = s.dequeues - 1; queues = s.queues + 1 };
  free_queued = λ s. record s { queues = s.queues - 1 };
  attach_producer = λ s. record s { dequeues = s.dequeues + 1 };
  set_shared = λ b s. record s { shared = b };
  detach_producer = λ s. record s { dequeues = s.dequeues - 1 };
  cancel = λ s. record s { dequeues = s.dequeues - 1 };
  clear_buffer_slot = λ s. cleared_slot;
  num_buffer_slots = 64;
  no_connected_api = 0;
  wait_while_allocating = λ q. q;
  get_max_buffer_count = λ q. pos 4;
  get_max_buffer_count_of = λ q async cannot_block limit. pos 4;
  get_min_undequeued_buffer_count = λ q. pos 1;
  get_min_max_buffer_count = λ q. pos 2;
  adjust_available_slots = λ d q. some q;
  free_all_buffers = λ q. q;
  needs_reallocation = λ b r. not (b == r.width);
  buffer_width = λ b. b;
  buffer_height = λ b. b;
  intersect = λ a b. record {
    left = max_ℤ a.left b.left;
    top = max_ℤ a.top b.top;
    right = min_ℤ a.right b.right;
    bottom = min_ℤ a.bottom b.bottom;
  };
  is_invalid_region = λ r. r == 0;
  invalid_region = 0;
  union_region = λ a b. a + b;
  constants = record {
    scaling_mode_freeze = 0;
    scaling_mode_scale_to_window = 1;
    scaling_mode_scale_crop = 2;
    scaling_mode_no_scale_crop = 3;
    transform_inverse_display = 8;
    dataspace_unknown = 0;
    no_fence = 0;
    egl_no_display = 0;
    api_egl = 1;
    api_cpu = 2;
    api_media = 3;
    api_camera = 4;
    currently_connected_api = 99;
  };
}

abbrev pub dequeued_slot : ℕ → Slot View
dequeued_slot b = record cleared_slot {
  buffer_state = record free_state { dequeues = 1 };
  graphic_buffer = some b;
}

abbrev pub no_crop : Rect
no_crop = record { left = pos 0; top = pos 0; right = pos 10; bottom = pos 10 }

-- The slots 0 and 1 are dequeued, and 2 is a free slot.
abbrev pub two_dequeued : Queue View
two_dequeued = record {
  is_abandoned = false;
  connected_api = 2;
  shared_buffer_mode = false;
  shared_buffer_slot = none;
  slots = λ n. if ltb n 2 then dequeued_slot (100 + n) else cleared_slot;
  free_slots = 2 ∷ [];
  free_buffers = [];
  active_buffers = 0 ∷ 1 ∷ [];
  consumer_listener = true;
  queue = [];
  frame_counter = 5;
  buffer_age = 0;
  last_queued_slot = none;
  buffer_has_been_queued = true;
  queue_buffer_can_drop = false;
  legacy_buffer_drop = true;
  auto_refresh = false;
  allow_allocation = true;
  is_allocating = false;
  consumer_controlled_by_app = false;
  generation_number = 1;
  generations = λ b. 1;
  shared_buffer_cache = record { crop = no_crop; transform = 0; scaling_mode = 0; data_space = 0 };
  limits = record {
    max_dequeued_buffer_count = pos 3;
    max_acquired_buffer_count = pos 1;
    max_buffer_count = pos 64;
    async_mode = false;
    dequeue_buffer_cannot_block = false;
  };
  defaults = record {
    width = 10;
    height = 10;
    format = 1;
    data_space = 2;
    consumer_usage_bits = 0;
    transform_hint = 0;
    is_protected = false;
  };
  link = record {
    connected_pid = pos 11;
    linked_to_death = none;
    connected_producer_listener = none;
    buffer_released_cb_enabled = false;
    sideband_stream = none;
  };
  sticky_transform = 0;
  dequeue_timeout = negsuc 0;
  dequeue_waiting_for_allocation = false;
  next_callback_ticket = 0;
  consumer_is_surface_flinger = false;
}

-- The states are their own counts.
abbrev pub counts : Counts core
counts = record {
  view = λ s. s;
  is_free-view = λ s. refl;
  is_dequeued-view = λ s. refl;
  is_shared-view = λ s. refl;
  view-set_shared = λ b s. refl;
  view-dequeue = λ s. refl;
  view-enqueue = λ s. refl;
  view-free_queued = λ s. refl;
  view-attach_producer = λ s. refl;
  view-cancel = λ s. refl;
  view-clear = λ s. refl;
}
