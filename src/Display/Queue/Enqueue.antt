-- ===== src/Display/Queue/Enqueue.antt =====
-- queueBuffer of BufferQueueProducer.cpp, as far as it holds the mutex of the core. The callbacks
-- that follow are in Tickets.
use Prim.Native.Nat.{bit_and}
use osdi_artifact.Prelude.{
  ℕ, ◌+◌, ◌-◌, ◌%◌, ◌^◌, ◌==◌, ℤ, pos, eq_ℤ, Bool, true, false, not, ◌&&◌, ◌||◌, Option, none, some,
  List, [], ◌∷◌, ◌++◌, length, if◌then◌else◌, update,
}
use osdi_artifact.Display.Queue.State.{Queue, Item, Rect, Core, Status, no_init, bad_value}
use osdi_artifact.Display.Queue.Sets.{erase}
use osdi_artifact.Display.Queue.{in_range}
use osdi_artifact.Display.Queue.Dequeue.{is_slot, is_first_shared}

-- QueueBufferInput.
pub record Input : Type 0 where
  pub timestamp : ℤ
  pub is_auto_timestamp : Bool
  pub data_space : ℕ
  pub crop : Rect
  pub scaling_mode : ℕ
  pub transform : ℕ
  pub sticky_transform : ℕ
  pub fence : Option ℕ
  pub surface_damage : ℕ
  pub hdr_metadata : ℕ

-- QueueBufferOutput, but for the timestamps.
pub record Output : Type 0 where
  pub width : ℕ
  pub height : ℕ
  pub transform_hint : ℕ
  pub num_pending_buffers : ℕ
  pub next_frame_number : ℕ
  pub buffer_replaced : Bool

abbrev pub eq_rect : Rect → Rect → Bool
eq_rect a b =
    eq_ℤ a.left b.left && eq_ℤ a.top b.top && eq_ℤ a.right b.right && eq_ℤ a.bottom b.bottom

abbrev pub next_frame : ℕ → ℕ
next_frame n = (n + 1) % 2 ^ 64

unfoldable pub last_item : List Item → Option Item
last_item [] = none
last_item (x ∷ []) = some x
last_item (x ∷ y ∷ xs) = last_item (y ∷ xs)

unfoldable pub replace_last : List Item → Item → List Item
replace_last [] v = []
replace_last (x ∷ []) v = v ∷ []
replace_last (x ∷ y ∷ xs) v = x ∷ replace_last (y ∷ xs) v

module _ (core : Core) where
  open core use {BufferState, is_free, is_shared, is_dequeued, set_shared, free_queued, constants}

  unfoldable pub is_scaling_mode : ℕ → Bool
  is_scaling_mode m =
      m == constants.scaling_mode_freeze
      || m == constants.scaling_mode_scale_to_window
      || m == constants.scaling_mode_scale_crop
      || m == constants.scaling_mode_no_scale_crop

  -- The first buffer that is queued in shared buffer mode becomes the shared one.
  unfoldable pub mark_shared : ℕ → Queue BufferState → Queue BufferState
  mark_shared n q =
      if is_first_shared core q
      then (record q {
        shared_buffer_slot = some n;
        slots =
            update q.slots n
              (record (q.slots n) { buffer_state = set_shared true (q.slots n).buffer_state });
      })
      else q

  unfoldable pub crop_fits : ℕ → Rect → Bool
  crop_fits b crop =
      eq_rect
        (core.intersect crop (record {
          left = pos 0;
          top = pos 0;
          right = pos (core.buffer_width b);
          bottom = pos (core.buffer_height b);
        }))
        crop

  unfoldable pub is_droppable : ℕ → Queue BufferState → Bool
  is_droppable n q =
      q.limits.async_mode
      || q.consumer_is_surface_flinger && q.queue_buffer_can_drop
      || q.legacy_buffer_drop && q.queue_buffer_can_drop
      || q.shared_buffer_mode && is_slot q.shared_buffer_slot n

  abbrev pub data_space_of : Input → Queue BufferState → ℕ
  data_space_of i q =
      if i.data_space == constants.dataspace_unknown then q.defaults.data_space else i.data_space

  unfoldable pub make_item : ℕ → Input → ℕ → Queue BufferState → Item
  make_item n i fence q = record {
    slot = n;
    graphic_buffer = (q.slots n).graphic_buffer;
    fence = fence;
    frame_number = next_frame q.frame_counter;
    is_droppable = is_droppable n q;
    is_stale = false;
    acquire_called = (q.slots n).acquire_called;
    crop = i.crop;
    transform = bit_and i.transform (2 ^ 32 - 1 - constants.transform_inverse_display);
    transform_to_display_inverse =
        not (bit_and i.transform constants.transform_inverse_display == 0);
    scaling_mode = i.scaling_mode;
    timestamp = i.timestamp;
    is_auto_timestamp = i.is_auto_timestamp;
    data_space = data_space_of i q;
    hdr_metadata = i.hdr_metadata;
    surface_damage = i.surface_damage;
    queued_buffer = true;
    auto_refresh = q.shared_buffer_mode && q.auto_refresh;
    api = q.connected_api;
  }

  -- The slot as it is queued, the frame counter, and what is kept of the input.
  unfoldable pub queue_slot : ℕ → Input → ℕ → Queue BufferState → Queue BufferState
  queue_slot n i fence q = record q {
    slots = update q.slots n (record (q.slots n) {
      fence = some fence;
      buffer_state = core.enqueue (q.slots n).buffer_state;
      frame_number = next_frame q.frame_counter;
    });
    frame_counter = next_frame q.frame_counter;
    sticky_transform = i.sticky_transform;
    shared_buffer_cache =
        if q.shared_buffer_mode
        then (record {
          crop = i.crop;
          transform = i.transform;
          scaling_mode = i.scaling_mode;
          data_space = data_space_of i q;
        })
        else q.shared_buffer_cache;
  }

  -- The state of the slot whose buffer is replaced in the queue.
  unfoldable pub freed : Bool → BufferState → BufferState
  freed mode s =
      if not mode && is_free (free_queued s)
      then set_shared false (free_queued s)
      else free_queued s

  -- What becomes of the slot of the item that is replaced; the Boolean is bufferReplaced.
  unfoldable pub free_last : ℕ → Queue BufferState → Queue BufferState × Bool
  free_last m q =
      let state = freed q.shared_buffer_mode (q.slots m).buffer_state in
      let slots = update q.slots m (record (q.slots m) { buffer_state = state }) in
      if not (is_shared state)
      then (
        record q {
          slots = slots;
          active_buffers = erase m q.active_buffers;
          free_buffers = q.free_buffers ++ m ∷ [];
        },
        true,
      )
      else (record q { slots = slots }, false)

  unfoldable pub merge_damage : ℕ → ℕ → ℕ
  merge_damage old new =
      if core.is_invalid_region old || core.is_invalid_region new
      then core.invalid_region
      else core.union_region new old

  -- The queue with the item, the item itself, which callback tells of it, and bufferReplaced.
  pub record Pushed : Type 0 where
    pub queue : Queue BufferState
    pub item : Item
    pub is_replacing : Bool
    pub buffer_replaced : Bool

  abbrev pub push_back : Item → Queue BufferState → Pushed
  push_back item q = record {
    queue = record q { queue = q.queue ++ item ∷ [] };
    item = item;
    is_replacing = false;
    buffer_replaced = false;
  }

  abbrev pub overwrite : Item → Item → Queue BufferState × Bool → Pushed
  overwrite last item (q, replaced) =
      let item' = record item {
        surface_damage = merge_damage last.surface_damage item.surface_damage;
      } in
      record {
        queue = record q { queue = replace_last q.queue item' };
        item = item';
        is_replacing = true;
        buffer_replaced = replaced;
      }

  abbrev pub push_on : Option Item → Item → Queue BufferState → Pushed
  push_on none item q = push_back item q
  push_on (some last) item q =
      if last.is_droppable
      then overwrite last item (if last.is_stale then (q, false) else free_last last.slot q)
      else push_back item q

  unfoldable pub push : Item → Queue BufferState → Pushed
  push item q = push_on (last_item q.queue) item q

  -- What the thread takes along to the callbacks: the listener is there or not.
  pub record Sent : Type 0 where
    pub item : Item
    pub is_replacing : Bool
    pub has_listener : Bool
    pub ticket : ℕ
    pub fence : ℕ
    pub output : Output

  -- What queueBuffer returns under the mutex; `crashes` is a call on a null buffer.
  pub data Queued : Type 0 where
    refuses : Status → Queue BufferState → Queued
    sends : Sent → Queue BufferState → Queued
    crashes : Queued

  abbrev pub clear_buffer : Bool → Item → Item
  clear_buffer true item = item
  clear_buffer false item = record item { graphic_buffer = none }

  abbrev pub send : ℕ → ℕ → Pushed → Queued
  send n fence p =
      let q = p.queue in
      sends
        (record {
          item = clear_buffer q.consumer_is_surface_flinger p.item;
          is_replacing = p.is_replacing;
          has_listener = q.consumer_listener;
          ticket = q.next_callback_ticket;
          fence = fence;
          output = record {
            width = q.defaults.width;
            height = q.defaults.height;
            transform_hint = q.defaults.transform_hint;
            num_pending_buffers = length q.queue % 2 ^ 32;
            next_frame_number = next_frame q.frame_counter;
            buffer_replaced = p.buffer_replaced;
          };
        })
        (record q {
          buffer_has_been_queued = true;
          last_queued_slot = some n;
          next_callback_ticket = q.next_callback_ticket + 1;
        })

  abbrev pub queue_marked : ℕ → Input → ℕ → Option ℕ → Queue BufferState → Queued
  queue_marked n i fence none q = crashes
  queue_marked n i fence (some b) q =
      if not (crop_fits b i.crop)
      then refuses bad_value q
      else send n fence (push (make_item n i fence q) (queue_slot n i fence q))

  abbrev pub queue_at : Input → ℕ → Queue BufferState → Option ℕ → Queued
  queue_at i fence q none = refuses bad_value q
  queue_at i fence q (some n) =
      if not (is_dequeued (q.slots n).buffer_state)
      then refuses bad_value q
      else if not (q.slots n).request_buffer_called
      then refuses bad_value q
      else (let q' = mark_shared n q in queue_marked n i fence (q'.slots n).graphic_buffer q')

  abbrev pub queue_fenced : ℤ → Input → Option ℕ → Queue BufferState → Queued
  queue_fenced slot i none q = refuses bad_value q
  queue_fenced slot i (some fence) q =
      if not (is_scaling_mode i.scaling_mode)
      then refuses bad_value q
      else if q.is_abandoned
      then refuses no_init q
      else if q.connected_api == core.no_connected_api
      then refuses no_init q
      else queue_at i fence q (in_range core.num_buffer_slots slot)

  unfoldable pub queue_buffer : ℤ → Input → Queue BufferState → Queued
  queue_buffer slot i q = queue_fenced slot i i.fence q
