-- ===== src/Display/Queue/Rising.antt =====
-- queueBuffer of BufferQueueProducer.cpp numbers the frames of the queue in their order.
use osdi_artifact.Prelude.{
  ℕ, ◌+◌, ◌≤◌, ◌<◌, ◌==◌, ◌^◌, ℤ, Bool, not, Option, none, some, List, [], ◌∷◌, ◌++◌, ◌≡◌, refl,
  arith, if-keeps,
}
use osdi_artifact.Display.Queue.State.{Queue, Item, Core}
use osdi_artifact.Display.Queue.{in_range}
use osdi_artifact.Display.Queue.Dequeue.{is_first_shared}
use osdi_artifact.Display.Queue.Enqueue.{
  Input, Pushed, last_item, replace_last, queue_slot, freed, free_last, merge_damage, overwrite,
  push_on, push, make_item, Queued, sends, queue_marked, queue_at, queue_fenced, queue_buffer,
  mark_shared, crop_fits, is_scaling_mode,
}

-- The frame numbers rise from behind `low`, and none is above `top`.
abbrev pub IsRising : ℕ → List Item → ℕ → Type 0
IsRising low [] top = low ≤ top
IsRising low (x ∷ xs) top = (low < x.frame_number) × IsRising x.frame_number xs top

IsRising-append :
    (low top : ℕ) (xs : List Item) (x : Item)
    → top < x.frame_number
    → IsRising low xs top
    → IsRising low (xs ++ x ∷ []) x.frame_number
IsRising-append low top [] x h r = (omega (arith, h, r), omega arith)
IsRising-append low top (y ∷ ys) x h r = (r.0, IsRising-append y.frame_number top ys x h r.1)

-- A list of one item or more ends below its top.
IsRising-le : (low top : ℕ) (xs : List Item) → IsRising low xs top → low ≤ top
IsRising-le low top [] r = r
IsRising-le low top (x ∷ xs) r = omega (arith, r.0, IsRising-le x.frame_number top xs r.1)

IsRising-replace_last :
    (low top : ℕ) (xs : List Item) (x : Item)
    → top < x.frame_number
    → IsRising low xs top
    → IsRising low (replace_last xs x) x.frame_number
unfolding replace_last
IsRising-replace_last low top [] x h r = omega (arith, h, r)
IsRising-replace_last low top (y ∷ []) x h r = (omega (arith, h, r.0, r.1), omega arith)
IsRising-replace_last low top (y ∷ z ∷ ys) x h r =
    (r.0, IsRising-replace_last y.frame_number top (z ∷ ys) x h r.1)

module _ (core : Core) where
  open core use {BufferState, is_dequeued}

  abbrev pub Numbered : Queue BufferState → Type 0
  Numbered q = IsRising 0 q.queue q.frame_counter

  -- The counter is that of the new item already.
  abbrev Counted : ℕ → Pushed core → Type 0
  Counted f p = IsRising 0 p.queue.queue p.queue.frame_counter

  free_last-queue :
      (m : ℕ) (q : Queue BufferState)
      → ((free_last core m q).0.queue ≡ q.queue)
        × ((free_last core m q).0.frame_counter ≡ q.frame_counter)
  unfolding free_last
  free_last-queue m q =
      if-keeps
        (λ (p : Queue BufferState × Bool).
          (p.0.queue ≡ q.queue) × (p.0.frame_counter ≡ q.frame_counter))
        (not (core.is_shared (freed core q.shared_buffer_mode (q.slots m).buffer_state)))
        (λ e. (refl, refl)) (λ e. (refl, refl))

  push_on-Rising :
      (o : Option Item) (x : Item) (top : ℕ) (q : Queue BufferState)
      → top < x.frame_number
      → q.frame_counter ≡ x.frame_number
      → IsRising 0 q.queue top
      → Counted top (push_on core o x q)
  push_on-Rising none x top q h e r = rw e (IsRising-append 0 top q.queue x h r)
  push_on-Rising (some last) x top q h e r =
      let x' = record x {
        surface_damage = merge_damage core last.surface_damage x.surface_damage;
      } in
      if-keeps (Counted top) last.is_droppable
        (λ d.
          if-keeps (λ (p : Queue BufferState × Bool). Counted top (overwrite core last x p))
            last.is_stale (λ s. rw e (IsRising-replace_last 0 top q.queue x' h r))
            (λ s.
              rw ((free_last-queue last.slot q).0, (free_last-queue last.slot q).1, e)
                (IsRising-replace_last 0 top q.queue x' h r)))
        (λ d. rw e (IsRising-append 0 top q.queue x h r))

  abbrev pub RisesOn : Queued core → Type 0
  RisesOn (Queued.refuses status q) = Numbered q
  RisesOn (sends s q) = Numbered q
  RisesOn Queued.crashes = Unit

  queue_marked-Rising :
      (n : ℕ) (i : Input) (fence : ℕ) (o : Option ℕ) (q : Queue BufferState)
      → q.frame_counter + 1 < 2 ^ 64
      → Numbered q
      → RisesOn (queue_marked core n i fence o q)
  unfolding push make_item queue_slot
  queue_marked-Rising n i fence none q h r = tt
  queue_marked-Rising n i fence (some b) q h r =
      if-keeps RisesOn (not (crop_fits core b i.crop)) (λ e. r)
        (λ e.
          push_on-Rising (last_item q.queue) (make_item core n i fence q) q.frame_counter
            (queue_slot core n i fence q) (omega (arith, h)) refl r)

  mark_shared-Rising :
      (n : ℕ) (q : Queue BufferState)
      → ((mark_shared core n q).queue ≡ q.queue)
        × ((mark_shared core n q).frame_counter ≡ q.frame_counter)
  unfolding mark_shared
  mark_shared-Rising n q =
      if-keeps
        (λ (p : Queue BufferState). (p.queue ≡ q.queue) × (p.frame_counter ≡ q.frame_counter))
        (is_first_shared core q) (λ e. (refl, refl)) (λ e. (refl, refl))

  queue_at-Rising :
      (i : Input) (fence : ℕ) (q : Queue BufferState) (o : Option ℕ)
      → q.frame_counter + 1 < 2 ^ 64
      → Numbered q
      → RisesOn (queue_at core i fence q o)
  queue_at-Rising i fence q none h r = r
  queue_at-Rising i fence q (some n) h r =
      let q' = mark_shared core n q in
      let (same_queue, same_counter) = mark_shared-Rising n q in
      if-keeps RisesOn (not (is_dequeued (q.slots n).buffer_state)) (λ e. r)
        (λ e.
          if-keeps RisesOn (not (q.slots n).request_buffer_called) (λ g. r)
            (λ g.
              queue_marked-Rising n i fence (q'.slots n).graphic_buffer q' (rw same_counter h)
                (rw (same_queue, same_counter) r)))

  queue_fenced-Rising :
      (s : ℤ) (i : Input) (o : Option ℕ) (q : Queue BufferState)
      → q.frame_counter + 1 < 2 ^ 64
      → Numbered q
      → RisesOn (queue_fenced core s i o q)
  queue_fenced-Rising s i none q h r = r
  queue_fenced-Rising s i (some fence) q h r =
      if-keeps RisesOn (not (is_scaling_mode core i.scaling_mode)) (λ e. r)
        (λ e.
          if-keeps RisesOn q.is_abandoned (λ g. r)
            (λ g.
              if-keeps RisesOn (q.connected_api == core.no_connected_api) (λ k. r)
                (λ k. queue_at-Rising i fence q (in_range core.num_buffer_slots s) h r)))

  -- Where the frame counter does not wrap, and the frame numbers rise along the queue up to the
  -- counter at most: they do so after queueBuffer, however it ends, whether it appends its item or
  -- overwrites the last one.
  pub queue_buffer-Numbered :
      (s : ℤ) (i : Input) (q : Queue BufferState)
      → q.frame_counter + 1 < 2 ^ 64
      → Numbered q
      → RisesOn (queue_buffer core s i q)
  unfolding queue_buffer
  queue_buffer-Numbered s i q h r = queue_fenced-Rising s i i.fence q h r
