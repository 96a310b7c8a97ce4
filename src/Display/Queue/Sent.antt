-- ===== src/Display/Queue/Sent.antt =====
-- BufferQueueProducer.cpp: attachBuffer and queueBuffer keep the balance, however they end.
use osdi_artifact.Prelude.{
  ℕ, ◌==◌, ℤ, Bool, true, false, not, Option, none, some, List, ◌≡◌, refl, sym, subst, arith,
  if-keeps,
}
use osdi_artifact.Display.Queue.State.{Queue, Core}
use osdi_artifact.Display.Queue.{in_range}
use osdi_artifact.Display.Queue.Counts.{Counts, IsBalanced, Balancing}
use osdi_artifact.Display.Queue.Balanced.{attach_slot-IsBalanced}
use osdi_artifact.Display.Queue.Wait.{FreeSlotCaller, Wake, Waited, failed, found, blocked}
use osdi_artifact.Display.Queue.Dequeue.{is_first_shared}
use osdi_artifact.Display.Queue.Attach.{Attached, attach_found, attach_buffer}
use osdi_artifact.Display.Queue.Enqueue.{
  Input, Queued, queue_buffer, queue_fenced, queue_at, queue_marked, mark_shared, crop_fits,
  is_scaling_mode, sends,
}
use osdi_artifact.Display.Queue.Pushed.{push-IsBalanced}
use osdi_artifact.Display.Queue.Found.{Fair, WaitedKeeps, wait_for_free_slot-Keeps}
use osdi_artifact.Display.Queue.Kept.{same_lists}

module _ (core : Core) (counts : Counts core) (laws : Balancing core counts) where
  open core use {BufferState, needs_reallocation, wait_while_allocating, is_dequeued}

  abbrev Balanced : Queue BufferState → Type 0
  Balanced = IsBalanced core counts

  abbrev pub AttachedKeeps : Attached core → Type 0
  AttachedKeeps (Attached.refuses status q) = Balanced q
  AttachedKeeps (Attached.gives n q) = Balanced q
  AttachedKeeps (Attached.waits_on q) = Balanced q

  attach_found-Keeps :
      (b : ℕ) (w : Waited core) → WaitedKeeps core counts w → AttachedKeeps (attach_found core b w)
  attach_found-Keeps b (failed status q) h = h
  attach_found-Keeps b (found n q ws) h = attach_slot-IsBalanced core counts n b q h.0
  attach_found-Keeps b (blocked q) h = h

  pub attach_buffer-Keeps :
      (out : Bool) (buffer : Option ℕ) (ws : List (Wake core)) (q : Queue BufferState)
      → Fair core counts ws
      → Balanced q
      → AttachedKeeps (attach_buffer core out buffer ws q)
  unfolding attach_buffer
  attach_buffer-Keeps false buffer ws q f b = b
  attach_buffer-Keeps true none ws q f b = b
  attach_buffer-Keeps true (some x) ws q f b =
      if-keeps AttachedKeeps q.is_abandoned (λ e. b)
        (λ e.
          if-keeps AttachedKeeps (q.connected_api == core.no_connected_api) (λ g. b)
            (λ g.
              if-keeps AttachedKeeps q.shared_buffer_mode (λ h. b)
                (λ h.
                  if-keeps AttachedKeeps (not (q.generations x == q.generation_number)) (λ k. b)
                    (λ k. attach_found-Keeps x _ (
                      wait_for_free_slot-Keeps core counts FreeSlotCaller.attach ws _ f
                        (laws.wait-IsBalanced q b))))))

  abbrev pub QueuedKeeps : Queued core → Type 0
  QueuedKeeps (Queued.refuses status q) = Balanced q
  QueuedKeeps (sends s q) = Balanced q
  QueuedKeeps Queued.crashes = Unit

  queue_marked-Keeps :
      (n : ℕ) (i : Input) (fence : ℕ) (o : Option ℕ) (q : Queue BufferState)
      → Balanced q
      → is_dequeued (q.slots n).buffer_state ≡ true
      → QueuedKeeps (queue_marked core n i fence o q)
  queue_marked-Keeps n i fence none q b h = tt
  queue_marked-Keeps n i fence (some x) q b h =
      if-keeps QueuedKeeps (not (crop_fits core x i.crop)) (λ e. b)
        (λ e.
          same_lists core counts laws _ _ refl refl refl refl refl refl refl
            (push-IsBalanced core counts n i fence q b h))

  -- Where there is no shared buffer mode, no slot is marked.
  pub mark_shared-id : (n : ℕ) (q : Queue BufferState) → Balanced q → mark_shared core n q ≡ q
  unfolding mark_shared
  mark_shared-id n q b =
      if-keeps (λ p. p ≡ q) (is_first_shared core q)
        (λ e. absurd (ground (arith, e, b.no_shared_mode))) (λ e. refl)

  queue_at-Keeps :
      (i : Input) (fence : ℕ) (q : Queue BufferState) (o : Option ℕ)
      → Balanced q
      → QueuedKeeps (queue_at core i fence q o)
  queue_at-Keeps i fence q none b = b
  queue_at-Keeps i fence q (some n) b =
      if-keeps QueuedKeeps (not (is_dequeued (q.slots n).buffer_state)) (λ e. b)
        (λ e.
          if-keeps QueuedKeeps (not (q.slots n).request_buffer_called) (λ g. b)
            (λ g.
              subst (λ p. QueuedKeeps (queue_marked core n i fence (p.slots n).graphic_buffer p))
                (sym (mark_shared-id n q b))
                (queue_marked-Keeps n i fence (q.slots n).graphic_buffer q b (ground (arith, e)))))

  queue_fenced-Keeps :
      (s : ℤ) (i : Input) (o : Option ℕ) (q : Queue BufferState)
      → Balanced q
      → QueuedKeeps (queue_fenced core s i o q)
  queue_fenced-Keeps s i none q b = b
  queue_fenced-Keeps s i (some fence) q b =
      if-keeps QueuedKeeps (not (is_scaling_mode core i.scaling_mode)) (λ e. b)
        (λ e.
          if-keeps QueuedKeeps q.is_abandoned (λ g. b)
            (λ g.
              if-keeps QueuedKeeps (q.connected_api == core.no_connected_api) (λ h. b)
                (λ h. queue_at-Keeps i fence q (in_range core.num_buffer_slots s) b)))

  pub queue_buffer-Keeps :
      (s : ℤ) (i : Input) (q : Queue BufferState)
      → Balanced q
      → QueuedKeeps (queue_buffer core s i q)
  unfolding queue_buffer
  queue_buffer-Keeps s i q b = queue_fenced-Keeps s i i.fence q b
