-- ===== src/Display/Queue/State.antt =====
-- The state of BufferQueueProducer.cpp: the fields of BufferQueueCore that it uses, those of the
-- producer, and the record `Core` of what is not in the repository. Buffers, fences, regions,
-- listeners and streams are references, which are numbers; `none` is a null reference.
use osdi_artifact.Prelude.{ℕ, ℤ, Bool, Option, List}

pub record Slot (BufferState : Type 0) : Type 0 where
  pub buffer_state : BufferState
  pub graphic_buffer : Option ℕ
  pub request_buffer_called : Bool
  pub fence : Option ℕ
  pub frame_number : ℕ
  pub acquire_called : Bool
  pub needs_reallocation : Bool
  pub egl_display : ℕ
  pub egl_fence : Option ℕ

pub record Rect : Type 0 where
  pub left : ℤ
  pub top : ℤ
  pub right : ℤ
  pub bottom : ℤ

-- BufferItem.
pub record Item : Type 0 where
  pub slot : ℕ
  pub graphic_buffer : Option ℕ
  pub fence : ℕ
  pub frame_number : ℕ
  pub is_droppable : Bool
  pub is_stale : Bool
  pub acquire_called : Bool
  pub crop : Rect
  pub transform : ℕ
  pub transform_to_display_inverse : Bool
  pub scaling_mode : ℕ
  pub timestamp : ℤ
  pub is_auto_timestamp : Bool
  pub data_space : ℕ
  pub hdr_metadata : ℕ
  pub surface_damage : ℕ
  pub queued_buffer : Bool
  pub auto_refresh : Bool
  pub api : ℕ

-- mSharedBufferCache.
pub record SharedCache : Type 0 where
  pub crop : Rect
  pub transform : ℕ
  pub scaling_mode : ℕ
  pub data_space : ℕ

pub record Limits : Type 0 where
  pub max_dequeued_buffer_count : ℤ
  pub max_acquired_buffer_count : ℤ
  pub max_buffer_count : ℤ
  pub async_mode : Bool
  pub dequeue_buffer_cannot_block : Bool

-- What the consumer asks of buffers.
pub record Defaults : Type 0 where
  pub width : ℕ
  pub height : ℕ
  pub format : ℕ
  pub data_space : ℕ
  pub consumer_usage_bits : ℕ
  pub transform_hint : ℕ
  pub is_protected : Bool

-- What connect and disconnect change beside the connected API.
pub record Link : Type 0 where
  pub connected_pid : ℤ
  pub linked_to_death : Option ℕ
  pub connected_producer_listener : Option ℕ
  pub buffer_released_cb_enabled : Bool
  pub sideband_stream : Option ℕ

-- The fields of BufferQueueCore, and behind them those of BufferQueueProducer. `generations` is the
-- generation number that each buffer carries. INVALID_BUFFER_SLOT is `none`.
pub record Queue (BufferState : Type 0) : Type 0 where
  pub is_abandoned : Bool
  pub connected_api : ℕ
  pub shared_buffer_mode : Bool
  pub shared_buffer_slot : Option ℕ
  pub slots : ℕ → Slot BufferState
  pub free_slots : List ℕ
  pub free_buffers : List ℕ
  pub active_buffers : List ℕ
  pub consumer_listener : Bool
  pub queue : List Item
  pub frame_counter : ℕ
  pub buffer_age : ℕ
  pub last_queued_slot : Option ℕ
  pub buffer_has_been_queued : Bool
  pub queue_buffer_can_drop : Bool
  pub legacy_buffer_drop : Bool
  pub auto_refresh : Bool
  pub allow_allocation : Bool
  pub is_allocating : Bool
  pub consumer_controlled_by_app : Bool
  pub generation_number : ℕ
  pub generations : ℕ → ℕ
  pub shared_buffer_cache : SharedCache
  pub limits : Limits
  pub defaults : Defaults
  pub link : Link
  pub sticky_transform : ℕ
  pub dequeue_timeout : ℤ
  pub dequeue_waiting_for_allocation : Bool
  pub next_callback_ticket : ℕ
  pub consumer_is_surface_flinger : Bool

-- The size, the format and the usage that a buffer is asked for with.
pub record Request : Type 0 where
  pub width : ℕ
  pub height : ℕ
  pub format : ℕ
  pub usage : ℕ

-- The constants of the window system's headers.
pub record Constants : Type 0 where
  pub scaling_mode_freeze : ℕ
  pub scaling_mode_scale_to_window : ℕ
  pub scaling_mode_scale_crop : ℕ
  pub scaling_mode_no_scale_crop : ℕ
  pub transform_inverse_display : ℕ
  pub dataspace_unknown : ℕ
  pub no_fence : ℕ
  pub egl_no_display : ℕ
  pub api_egl : ℕ
  pub api_cpu : ℕ
  pub api_media : ℕ
  pub api_camera : ℕ
  pub currently_connected_api : ℕ

-- BufferState, clearBufferSlotLocked as it changes the slot, and waitWhileAllocatingLocked, which
-- gives up the lock, so that the queue is another one after it. `IsValid` says that a state that is
-- not shared counts one owner at most. The two numbers are NUM_BUFFER_SLOTS and NO_CONNECTED_API.
-- adjustAvailableSlotsLocked gives `none` where it returns false.
pub record Core : Type 1 where
  pub BufferState : Type 0
  pub IsValid : BufferState → Type 0
  pub is_free : BufferState → Bool
  pub is_dequeued : BufferState → Bool
  pub is_acquired : BufferState → Bool
  pub is_shared : BufferState → Bool
  pub set_shared : Bool → BufferState → BufferState
  pub dequeue : BufferState → BufferState
  pub enqueue : BufferState → BufferState
  pub free_queued : BufferState → BufferState
  pub attach_producer : BufferState → BufferState
  pub detach_producer : BufferState → BufferState
  pub cancel : BufferState → BufferState
  pub clear_buffer_slot : Slot BufferState → Slot BufferState
  pub num_buffer_slots : ℕ
  pub no_connected_api : ℕ
  pub wait_while_allocating : Queue BufferState → Queue BufferState
  pub get_max_buffer_count : Queue BufferState → ℤ
  pub get_max_buffer_count_of : Queue BufferState → Bool → Bool → ℤ → ℤ
  pub get_min_undequeued_buffer_count : Queue BufferState → ℤ
  pub get_min_max_buffer_count : Queue BufferState → ℤ
  pub adjust_available_slots : ℤ → Queue BufferState → Option (Queue BufferState)
  pub free_all_buffers : Queue BufferState → Queue BufferState
  pub needs_reallocation : ℕ → Request → Bool
  pub buffer_width : ℕ → ℕ
  pub buffer_height : ℕ → ℕ
  pub intersect : Rect → Rect → Rect
  pub is_invalid_region : ℕ → Bool
  pub invalid_region : ℕ
  pub union_region : ℕ → ℕ → ℕ
  pub constants : Constants

pub data Status : Type 0 where
  no_error : Status
  no_init : Status
  bad_value : Status
  no_memory : Status
  invalid_operation : Status
  would_block : Status
  timed_out : Status
  other_error : ℕ → Status

-- What a call returns and leaves: whether it wakes mDequeueCondition, whether it calls
-- onBuffersReleased, and `*buf` where requestBuffer writes it.
pub record Done (BufferState : Type 0) : Type 0 where
  pub status : Status
  pub queue : Queue BufferState
  pub notified : Bool
  pub released : Bool
  pub buf : Option (Option ℕ)
