-- ===== src/Display/Queue/Allocate.antt =====
-- allocateBuffers of BufferQueueProducer.cpp. It gives the lock up in each round while it allocates.
use Prim.Native.Nat.{bit_or}
use osdi_artifact.Prelude.{
  ℕ, ◌==◌, Bool, true, false, not, ◌&&◌, ◌||◌, some, List, [], ◌∷◌, if◌then◌else◌, update,
}
use osdi_artifact.Display.Queue.State.{Queue, Request, Core}
use osdi_artifact.Display.Queue.Sets.{erase}
use osdi_artifact.Display.Queue.Dequeue.{Allocation, made, error, or_default, is_empty}

module _ (core : Core) where
  open core use {BufferState, clear_buffer_slot, wait_while_allocating, constants}

  -- What the environment does in a round: the allocation, what others do meanwhile, and what they do
  -- until dequeueBuffer no longer waits for the allocation.
  pub record AllocationRound : Type 0 where
    pub allocation : Allocation
    pub meanwhile : Queue BufferState → Queue BufferState
    pub after : Queue BufferState → Queue BufferState

  unfoldable pub wanted : Request → Queue BufferState → Request
  wanted r q = record {
    width = or_default r.width q.defaults.width;
    height = or_default r.height q.defaults.height;
    format = or_default r.format q.defaults.format;
    usage = bit_or r.usage q.defaults.consumer_usage_bits;
  }

  abbrev pub same_request : Request → Request → Bool
  same_request a b =
      a.width == b.width && a.height == b.height && a.format == b.format && a.usage == b.usage

  -- The first free slot takes the buffer and becomes the first free buffer.
  unfoldable pub fill_slot : List ℕ → ℕ → Queue BufferState → Queue BufferState
  fill_slot [] b q = q
  fill_slot (n ∷ ns) b q = record q {
    slots = update q.slots n (record (clear_buffer_slot (q.slots n)) {
      graphic_buffer = some b;
      fence = some constants.no_fence;
    });
    free_buffers = n ∷ q.free_buffers;
    free_slots = erase n q.free_slots;
  }

  -- The function has returned, or it goes on for as long as there are rounds.
  pub data Allocated : Type 0 where
    returned : Queue BufferState → Allocated
    unfinished : Queue BufferState → Allocated

  abbrev pub not_allocating : Queue BufferState → Queue BufferState
  not_allocating q = record q { is_allocating = false }

  -- Whether a round returns before it allocates.
  abbrev pub is_done : Queue BufferState → Bool
  is_done q = not q.allow_allocation || is_empty q.free_slots

  -- The queue behind a round that has allocated the buffer `b` for the request `r`.
  unfoldable pub filled : Request → Request → ℕ → Queue BufferState → Queue BufferState
  filled wish r b q =
      not_allocating (if same_request (wanted wish q) r then fill_slot q.free_slots b q else q)

  abbrev pub allocating : Queue BufferState → Queue BufferState
  allocating q = record q { is_allocating = true }

  abbrev pub on_allocation :
      (Queue BufferState → Allocated)
      → Request
      → Request
      → (Queue BufferState → Queue BufferState)
      → Allocation
      → Queue BufferState
      → Allocated
  on_allocation again wish r after (error code) q = returned (not_allocating q)
  on_allocation again wish r after (made b) q =
      again
        (if same_request (wanted wish q) r then after (filled wish r b q) else filled wish r b q)

  unfoldable pub allocate_buffers : List AllocationRound → Request → Queue BufferState → Allocated
  allocate_buffers [] wish q =
      let q' = wait_while_allocating q in
      if is_done q' then returned q' else unfinished (allocating q')
  allocate_buffers (c ∷ cs) wish q =
      let q' = wait_while_allocating q in
      let rest =
        on_allocation (allocate_buffers cs wish) wish (wanted wish q') c.after c.allocation
          (c.meanwhile (allocating q')) in
      if is_done q' then returned q' else rest
