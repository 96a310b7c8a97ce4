-- ===== src/Display/Queue/Attach.antt =====
-- attachBuffer of BufferQueueProducer.cpp.
use osdi_artifact.Prelude.{
  ℕ, ◌==◌, Bool, true, false, not, Option, none, some, List, if◌then◌else◌, update,
}
use osdi_artifact.Display.Queue.State.{Queue, Core, Status, no_init, bad_value}
use osdi_artifact.Display.Queue.Sets.{insert}
use osdi_artifact.Display.Queue.Wait.{
  FreeSlotCaller, Wake, Waited, failed, found, blocked, wait_for_free_slot,
}

module _ (core : Core) where
  open core use {BufferState, wait_while_allocating, constants}

  pub data Attached : Type 0 where
    refuses : Status → Queue BufferState → Attached
    gives : ℕ → Queue BufferState → Attached
    waits_on : Queue BufferState → Attached

  -- The slot with the buffer that is attached to it.
  unfoldable pub attach_slot : ℕ → ℕ → Queue BufferState → Queue BufferState
  attach_slot n b q = record q {
    slots = update q.slots n (record (q.slots n) {
      graphic_buffer = some b;
      buffer_state = core.attach_producer (q.slots n).buffer_state;
      egl_fence = none;
      fence = some constants.no_fence;
      request_buffer_called = true;
      acquire_called = false;
      needs_reallocation = false;
    });
    active_buffers = insert n q.active_buffers;
  }

  abbrev pub attach_found : ℕ → Waited core → Attached
  attach_found b (failed status q) = refuses status q
  attach_found b (found n q wakes) = gives n (attach_slot n b q)
  attach_found b (blocked q) = waits_on q

  abbrev pub attach_given : List (Wake core) → ℕ → Queue BufferState → Attached
  attach_given wakes b q =
      if q.is_abandoned
      then refuses no_init q
      else if q.connected_api == core.no_connected_api
      then refuses no_init q
      else if q.shared_buffer_mode
      then refuses bad_value q
      else if not (q.generations b == q.generation_number)
      then refuses bad_value q
      else attach_found b
          (wait_for_free_slot core FreeSlotCaller.attach wakes (wait_while_allocating q))

  -- The Boolean tells whether the pointer `outSlot` is there.
  unfoldable pub attach_buffer : Bool → Option ℕ → List (Wake core) → Queue BufferState → Attached
  attach_buffer false buffer wakes q = refuses bad_value q
  attach_buffer true none wakes q = refuses bad_value q
  attach_buffer true (some b) wakes q = attach_given wakes b q
