-- ===== src/Display/Queue/Dequeue.antt =====
-- dequeueBuffer of BufferQueueProducer.cpp. It holds the lock three times: for the first tests, to
-- take a slot, and to hand over a buffer that it has allocated.
use Prim.Native.Nat.{bit_or}
use osdi_artifact.Prelude.{
  ℕ, zero, suc, ◌+◌, ◌-◌, ◌%◌, ◌^◌, ◌==◌, Bool, true, false, not, ◌&&◌, ◌||◌, Option, none, some,
  List, [], ◌∷◌, if◌then◌else◌, update,
}
use osdi_artifact.Display.Queue.State.{
  Slot, Queue, Request, Core, Status, no_init, bad_value, other_error,
}
use osdi_artifact.Display.Queue.Sets.{insert}
use osdi_artifact.Display.Queue.Wait.{
  FreeSlotCaller, Wake, Waited, failed, found, blocked, wait_for_free_slot,
}

-- The outcome of `new GraphicBuffer` and initCheck.
pub data Allocation : Type 0 where
  made : ℕ → Allocation
  error : ℕ → Allocation

abbrev pub or_default : ℕ → ℕ → ℕ
or_default n d = if n == 0 then d else n

abbrev pub is_slot : Option ℕ → ℕ → Bool
is_slot none n = false
is_slot (some m) n = m == n

abbrev pub is_empty : List ℕ → Bool
is_empty [] = true
is_empty (n ∷ ns) = false

abbrev pub is_none {ℓ} : {A : Type ℓ} → Option A → Bool
is_none none = true
is_none (some a) = false

abbrev pub with_display : ℕ → Option ℕ → Option (ℕ × ℕ)
with_display d none = none
with_display d (some f) = some (d, f)

module _ (core : Core) where
  open core use {
    BufferState, clear_buffer_slot, needs_reallocation, wait_while_allocating, constants,
  }

  abbrev pub set_slot : ℕ → Slot BufferState → Queue BufferState → Queue BufferState
  set_slot n s q = record q { slots = update q.slots n s }

  -- The slot goes back to the free slots without a buffer.
  unfoldable pub drop_buffer : ℕ → Queue BufferState → Queue BufferState
  drop_buffer n q = record q {
    free_slots = insert n q.free_slots;
    slots = update q.slots n (clear_buffer_slot (q.slots n));
  }

  -- The wait for an allocation that is under way.
  unfoldable pub await_allocation : Queue BufferState → Queue BufferState
  await_allocation q =
      if is_empty q.free_buffers && q.is_allocating
      then (record (wait_while_allocating (record q { dequeue_waiting_for_allocation = true })) {
        dequeue_waiting_for_allocation = false;
      })
      else q

  -- The request with the consumer's defaults. Both of width and height are zero, or neither.
  unfoldable pub complete : Request → Queue BufferState → Request
  complete r q = record {
    width = if r.width == 0 && r.height == 0 then q.defaults.width else r.width;
    height = if r.width == 0 && r.height == 0 then q.defaults.height else r.height;
    format = or_default r.format q.defaults.format;
    usage = bit_or r.usage q.defaults.consumer_usage_bits;
  }

  -- How the search for a slot ends; `faulted` is a call on a null buffer, `out_of_fuel` is the
  -- model's own.
  pub data Search : Type 0 where
    refused : Status → Queue BufferState → Search
    slot : ℕ → Queue BufferState → Search
    stuck : Queue BufferState → Search
    faulted : Search
    out_of_fuel : Search

  -- What the loop does with a slot where it may not allocate; `next` is a further round without it.
  abbrev pub without_allocation : Request → ℕ → Queue BufferState → Option ℕ → Search → Search
  without_allocation r n q none next = faulted
  without_allocation r n q (some b) next =
      if needs_reallocation b r
      then if is_slot q.shared_buffer_slot n then refused bad_value q else next
      else slot n q

  abbrev pub on_found :
      (List (Wake core) → Queue BufferState → Search) → Request → Waited core → Search
  on_found again r (failed status q) = refused status q
  on_found again r (blocked q) = stuck q
  on_found again r (found n q wakes) =
      if q.allow_allocation
      then slot n q
      else without_allocation r n q (q.slots n).graphic_buffer (again wakes (drop_buffer n q))

  unfoldable pub search_slot : ℕ → Request → List (Wake core) → Queue BufferState → Search
  search_slot zero r wakes q = out_of_fuel
  search_slot (suc fuel) r wakes q =
      on_found (search_slot fuel r) r (wait_for_free_slot core FreeSlotCaller.dequeue wakes q)

  abbrev pub lacks : Request → Option ℕ → Bool
  lacks r none = true
  lacks r (some b) = needs_reallocation b r

  -- What is there once the slot is taken: the queue, and what is returned or done without the lock.
  pub record Taken : Type 0 where
    pub queue : Queue BufferState
    pub fence : Option ℕ
    pub egl_display : ℕ
    pub egl_fence : Option ℕ
    pub reallocates : Bool
    pub attached_by_consumer : Bool

  -- The slot as it is dequeued, before its fences are handed out.
  unfoldable pub dequeued_slot : Bool → Slot BufferState → Slot BufferState
  dequeued_slot realloc s =
      let s' = record s {
        needs_reallocation = false;
        buffer_state = core.dequeue s.buffer_state;
      } in
      if realloc
      then (record s' {
        acquire_called = false;
        graphic_buffer = none;
        request_buffer_called = false;
        egl_display = constants.egl_no_display;
        egl_fence = none;
        fence = some constants.no_fence;
      })
      else s'

  -- The state of a slot that becomes the shared one.
  abbrev pub share_first : Bool → BufferState → BufferState
  share_first first s = if first then core.set_shared true s else s

  abbrev pub is_first_shared : Queue BufferState → Bool
  is_first_shared q = q.shared_buffer_mode && is_none q.shared_buffer_slot

  unfoldable pub take_slot : ℕ → Request → Queue BufferState → Taken
  take_slot n r q =
      let realloc = lacks r (q.slots n).graphic_buffer in
      let s = dequeued_slot realloc (q.slots n) in
      let shared = is_slot q.shared_buffer_slot n in
      let first = is_first_shared q in
      record {
        queue = record q {
          active_buffers = if shared then q.active_buffers else insert n q.active_buffers;
          buffer_age =
              if realloc
              then 0
              else (q.frame_counter + 1 + 2 ^ 64 - (q.slots n).frame_number) % 2 ^ 64;
          is_allocating = if realloc then true else q.is_allocating;
          shared_buffer_slot = if first then some n else q.shared_buffer_slot;
          slots = update q.slots n (record s {
            egl_fence = none;
            fence = some constants.no_fence;
            buffer_state = share_first first s.buffer_state;
          });
        };
        fence = if q.shared_buffer_mode && shared then some constants.no_fence else s.fence;
        egl_display = s.egl_display;
        egl_fence = s.egl_fence;
        reallocates = realloc;
        attached_by_consumer = (q.slots n).needs_reallocation;
      }

  -- The part that holds the lock for the second time, from the search on.
  pub data Second : Type 0 where
    returned : Status → Queue BufferState → Second
    taken : ℕ → Taken → Second
    waits : Queue BufferState → Second
    crashed : Second
    no_fuel : Second

  -- The test of the shared slot comes first; a null buffer there is a fault.
  abbrev pub take_if_fits : ℕ → Request → Queue BufferState → Option ℕ → Second
  take_if_fits n r q none =
      if is_slot q.shared_buffer_slot n then crashed else taken n (take_slot n r q)
  take_if_fits n r q (some b) =
      if is_slot q.shared_buffer_slot n && needs_reallocation b r
      then returned bad_value q
      else taken n (take_slot n r q)

  abbrev pub on_search : Request → Search → Second
  on_search r (refused status q) = returned status q
  on_search r (slot n q) = take_if_fits n r q (q.slots n).graphic_buffer
  on_search r (stuck q) = waits q
  on_search r faulted = crashed
  on_search r out_of_fuel = no_fuel

  unfoldable pub dequeue_second : ℕ → Request → List (Wake core) → Queue BufferState → Second
  dequeue_second fuel r wakes q =
      let q' = await_allocation q in
      let r' = complete r q' in on_search r' (search_slot fuel r' wakes q')

  -- The third part: the buffer that has been allocated for the slot, or `some` error where there is none.
  unfoldable pub hand_over : ℕ → Allocation → Queue BufferState → Option Status × Queue BufferState
  hand_over n (error code) q =
      (some (other_error code), drop_buffer n (record q { is_allocating = false }))
  hand_over n (made b) q =
      if q.is_abandoned
      then (some no_init, drop_buffer n (record q { is_allocating = false }))
      else (
        none,
        record q {
          generations = update q.generations b q.generation_number;
          slots = update q.slots n (record (q.slots n) { graphic_buffer = some b });
          is_allocating = false;
        },
      )

  -- What dequeueBuffer returns: the slot, the fence, the age of the buffer, whether it has
  -- BUFFER_NEEDS_REALLOCATION set, and the EGL fence that it waits for.
  pub record Answer : Type 0 where
    pub slot : ℕ
    pub fence : Option ℕ
    pub age : ℕ
    pub buffer_needs_reallocation : Bool
    pub waited : Option (ℕ × ℕ)

  pub data Dequeued : Type 0 where
    refuses : Status → Queue BufferState → Dequeued
    gives : Answer → Queue BufferState → Dequeued
    waits_on : Queue BufferState → Dequeued
    crashes : Dequeued
    exhausted : Dequeued

  abbrev pub answer : ℕ → Taken → Queue BufferState → Answer
  answer n t q = record {
    slot = n;
    fence = t.fence;
    age = q.buffer_age;
    buffer_needs_reallocation = t.reallocates || t.attached_by_consumer;
    waited = with_display t.egl_display t.egl_fence;
  }

  abbrev pub on_hand_over : ℕ → Taken → Option Status × Queue BufferState → Dequeued
  on_hand_over n t (none, q) = gives (answer n t q) q
  on_hand_over n t (some status, q) = refuses status q

  -- `others` is what other threads do between the second time and the third.
  abbrev pub on_second : Allocation → (Queue BufferState → Queue BufferState) → Second → Dequeued
  on_second a others (returned status q) = refuses status q
  on_second a others (taken n t) =
      if t.reallocates
      then on_hand_over n t (hand_over n a (others t.queue))
      else gives (answer n t t.queue) t.queue
  on_second a others (waits q) = waits_on q
  on_second a others crashed = crashes
  on_second a others no_fuel = exhausted

  -- What the environment does in the course of the call: before the second time, in its waits, the
  -- allocation, and before the third time.
  pub record Course : Type 0 where
    pub before : Queue BufferState → Queue BufferState
    pub wakes : List (Wake core)
    pub allocation : Allocation
    pub meanwhile : Queue BufferState → Queue BufferState

  unfoldable pub dequeue_buffer : ℕ → Course → Request → Queue BufferState → Dequeued
  dequeue_buffer fuel c r q =
      if q.is_abandoned
      then refuses no_init q
      else if q.connected_api == core.no_connected_api
      then refuses no_init q
      else if not (r.width == 0) && r.height == 0 || r.width == 0 && not (r.height == 0)
      then refuses bad_value q
      else on_second c.allocation c.meanwhile (dequeue_second fuel r c.wakes (c.before q))
