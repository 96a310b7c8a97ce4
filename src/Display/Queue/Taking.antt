-- ===== src/Display/Queue/Taking.antt =====
-- BufferQueueProducer.cpp: when a slot is taken, and what a failed allocation leaves.
use osdi_artifact.Prelude.{ℕ, ltb_ℤ, pos, true, false, not, ◌||◌, none, List, ◌≡◌, arith, subst}
use osdi_artifact.Display.Queue.State.{Queue, Request, Core, other_error}
use osdi_artifact.Display.Queue.Sets.{count, count-insert}
use osdi_artifact.Display.Queue.Counts.{Counts, places, IsBalanced, IsLoose}
use osdi_artifact.Display.Queue.Wait.{
  FreeSlotCaller, Wake, found, refused, dequeued_count, wait_for_free_slot,
}
use osdi_artifact.Display.Queue.Dequeue.{
  Dequeued, taken, on_second, take_slot, hand_over, drop_buffer, lacks, error,
}
use osdi_artifact.Display.Queue.Found.{Fair, WaitedKeeps, wait_for_free_slot-Keeps}

module _ (core : Core) (counts : Counts core) where
  open core use {BufferState}

  -- A slot in no list, of a queue that is not abandoned and that may have one more dequeued slot.
  abbrev pub HasRoom : ℕ → Queue BufferState → Type 0
  HasRoom n q =
      (places core counts n q ≡ 0)
      × (q.is_abandoned ≡ false)
      × ((not q.buffer_has_been_queued
            || ltb_ℤ (pos (dequeued_count core q)) q.limits.max_dequeued_buffer_count)
          ≡ true)

  room-refused :
      (n : ℕ) (q : Queue BufferState)
      → IsLoose core counts n q
      → refused core q ≡ none
      → HasRoom n q
  unfolding refused
  room-refused n q l h = (l.nowhere, ground arith, ground arith)

  -- On a balanced queue, where other threads keep the balance: whenever waitForFreeSlotThenRelock
  -- gives a slot, after any wakes, the slot is in no list, the queue is not abandoned, and where a
  -- buffer has been queued fewer slots are dequeued than mMaxDequeuedBufferCount.
  pub wait_for_free_slot-HasRoom :
      (caller : FreeSlotCaller) (ws rest : List (Wake core)) (n : ℕ) (q q' : Queue BufferState)
      → Fair core counts ws
      → IsBalanced core counts q
      → wait_for_free_slot core caller ws q ≡ found n q' rest
      → HasRoom n q'
  wait_for_free_slot-HasRoom caller ws rest n q q' f b e =
      let kept =
        subst (WaitedKeeps core counts) e (wait_for_free_slot-Keeps core counts caller ws q f b) in
      room-refused n q' kept.0 kept.1

  -- Where a slot in no list is taken that lacks a fitting buffer, no slot is shared, and the
  -- allocation fails with nobody interfering: dequeueBuffer returns the error, and leaves the slot
  -- among the free slots and among the active ones at once.
  pub failed_allocation-two_places :
      (n code : ℕ) (r : Request) (q : Queue BufferState)
      → IsLoose core counts n q
      → lacks core r (q.slots n).graphic_buffer ≡ true
      → let q' = (hand_over core n (error code) (take_slot core n r q).queue).1 in
        (on_second core (error code) (λ p. p) (taken n (take_slot core n r q))
          ≡ Dequeued.refuses (other_error code) q')
        × (count n q'.free_slots ≡ 1)
        × (count n q'.active_buffers ≡ 1)
  unfolding take_slot hand_over drop_buffer
  failed_allocation-two_places n code r q l h =
      let b = l.balanced in
      let absent : count n q.free_slots ≡ 0 = omega (arith, l.nowhere) in
      let inactive : count n q.active_buffers ≡ 0 = omega (arith, l.nowhere) in
      (
        rw h,
        ground (arith, absent, count-insert n n q.free_slots absent),
        ground (arith, b.no_shared_slot, inactive, count-insert n n q.active_buffers inactive),
      )
