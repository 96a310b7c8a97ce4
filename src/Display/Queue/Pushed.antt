-- ===== src/Display/Queue/Pushed.antt =====
-- queueBuffer of BufferQueueProducer.cpp keeps the balance of lists and counts.
use osdi_artifact.Prelude.{
  ℕ, ◌+◌, ◌≤◌, ◌==◌, true, false, not, ◌&&◌, Option, none, some, List, [], ◌∷◌, ◌++◌, ◌≡◌, arith,
  if◌then◌else◌, refl, if-keeps,
}
use osdi_artifact.Display.Queue.State.{Queue, Item, Core}
use osdi_artifact.Display.Queue.Sets.{count, one_if, count-erase, count-push_back}
use osdi_artifact.Display.Queue.Counts.{total, items, Counts, places, IsBalanced}
use osdi_artifact.Display.Queue.Balanced.{dequeued-alone}
use osdi_artifact.Display.Queue.Enqueue.{
  Input, Pushed, last_item, replace_last, queue_slot, freed, free_last, merge_damage, push_back,
  overwrite, push_on, push, make_item,
}

-- What one item adds to the count of a slot.
abbrev weight : ℕ → Item → ℕ
weight n x = if not x.is_stale && x.slot == n then 1 else 0

items-append :
    (n : ℕ) (xs : List Item) (x : Item) → items n (xs ++ x ∷ []) ≡ weight n x + items n xs
items-append n [] x = ground arith
items-append n (y ∷ ys) x = ground (arith, items-append n ys x)

items-replace_last :
    (n : ℕ) (xs : List Item) (old x : Item)
    → last_item xs ≡ some old
    → items n (replace_last xs x) + weight n old ≡ weight n x + items n xs
unfolding last_item replace_last
items-replace_last n [] old x h = absurd (ground arith)
items-replace_last n (y ∷ []) old x h = ground arith
items-replace_last n (y ∷ z ∷ ys) old x h = ground (arith, items-replace_last n (z ∷ ys) old x h)

weight-le :
    (n : ℕ) (xs : List Item) (old : Item) → last_item xs ≡ some old → weight n old ≤ items n xs
unfolding last_item
weight-le n [] old h = absurd (ground arith)
weight-le n (y ∷ []) old h = ground arith
weight-le n (y ∷ z ∷ ys) old h = ground (arith, weight-le n (z ∷ ys) old h)

module _ (core : Core) (counts : Counts core) where
  open core use {BufferState, is_dequeued}
  open counts use {view}

  -- The balance while the slot `n` is queued already and its item is not there yet.
  pub record IsPending (n : ℕ) (q : Queue BufferState) : Type 0 where
    pub one_place : (m : ℕ) → places core counts m q ≤ 1
    pub active-total : (m : ℕ) → count m q.active_buffers ≡ total (view (q.slots m).buffer_state)
    pub items-queues :
        (m : ℕ) → one_if n m + items m q.queue ≡ (view (q.slots m).buffer_state).queues
    pub not_shared : (m : ℕ) → (view (q.slots m).buffer_state).shared ≡ false
    pub no_shared_mode : q.shared_buffer_mode ≡ false
    pub no_shared_slot : q.shared_buffer_slot ≡ none

  pub queue_slot-IsPending :
      (n : ℕ) (i : Input) (fence : ℕ) (q : Queue BufferState)
      → IsBalanced core counts q
      → is_dequeued (q.slots n).buffer_state ≡ true
      → IsPending n (queue_slot core n i fence q)
  unfolding queue_slot
  queue_slot-IsPending n i fence q b h =
      let (one, none_queued, none_acquired, active, absent, unfree) =
        dequeued-alone core counts n q b h in
      let queued = counts.view-enqueue (q.slots n).buffer_state in
      record {
        one_place = λ m. b.one_place m;
        active-total = λ m. ground (arith, b.active-total m, one, queued);
        items-queues = λ m. ground (arith, b.items-queues m, none_queued, queued);
        not_shared = λ m. ground (arith, b.not_shared m, queued);
        no_shared_mode = b.no_shared_mode;
        no_shared_slot = b.no_shared_slot;
      }

  push_back-IsBalanced :
      (n : ℕ) (x : Item) (q : Queue BufferState)
      → x.slot ≡ n
      → x.is_stale ≡ false
      → IsPending n q
      → IsBalanced core counts (push_back core x q).queue
  push_back-IsBalanced n x q e fresh b = record {
    one_place = λ m. b.one_place m;
    active-total = λ m. b.active-total m;
    items-queues = λ m. ground (arith, b.items-queues m, items-append m q.queue x);
    not_shared = λ m. b.not_shared m;
    no_shared_mode = b.no_shared_mode;
    no_shared_slot = b.no_shared_slot;
  }

  -- The slot of a fresh last item has that item for its one owner.
  pub last-alone :
      (n : ℕ) (last : Item) (q : Queue BufferState)
      → last_item q.queue ≡ some last
      → last.is_stale ≡ false
      → IsPending n q
      → let v = view (q.slots last.slot).buffer_state in
        (v.queues ≡ 1)
        × (v.dequeues ≡ 0)
        × (v.acquires ≡ 0)
        × (count last.slot q.active_buffers ≡ 1)
        × (count last.slot q.free_slots ≡ 0)
        × (count last.slot q.free_buffers ≡ 0)
        × ((n == last.slot) ≡ false)
  last-alone n last q e fresh b =
      let m = last.slot in
      ground (
        arith,
        b.one_place m,
        b.active-total m,
        b.items-queues m,
        fresh,
        items-replace_last m q.queue last last e,
        weight-le m q.queue last e,
      )

  pub freed-view :
      (n : ℕ) (last : Item) (q : Queue BufferState)
      → last_item q.queue ≡ some last
      → last.is_stale ≡ false
      → IsPending n q
      → view (freed core q.shared_buffer_mode (q.slots last.slot).buffer_state)
        ≡ record { dequeues = 0; queues = 0; acquires = 0; shared = false }
  unfolding freed
  freed-view n last q e fresh b =
      let s = (q.slots last.slot).buffer_state in
      let (one, undequeued, unacquired, active, absent, unfree, apart) =
        last-alone n last q e fresh b in
      ground (
        arith,
        b.not_shared last.slot,
        one,
        undequeued,
        unacquired,
        counts.view-free_queued s,
        counts.view-set_shared false (core.free_queued s),
      )

  overwrite_freed-IsBalanced :
      (n : ℕ) (last x : Item) (q : Queue BufferState)
      → x.slot ≡ n
      → x.is_stale ≡ false
      → last_item q.queue ≡ some last
      → last.is_stale ≡ false
      → IsPending n q
      → IsBalanced core counts (overwrite core last x (free_last core last.slot q)).queue
  unfolding free_last
  overwrite_freed-IsBalanced n last x q at fresh e old b =
      let l = last.slot in
      let state = freed core q.shared_buffer_mode (q.slots l).buffer_state in
      let (one, undequeued, unacquired, active, absent, unfree, apart) =
        last-alone n last q e old b in
      let free = freed-view n last q e old b in
      let unshared = counts.is_shared-view state in
      let x' = record x {
        surface_damage = merge_damage core last.surface_damage x.surface_damage;
      } in
      record {
        one_place = λ m. ground (
          arith,
          b.one_place m,
          active,
          absent,
          free,
          unshared,
          count-push_back m l q.free_buffers,
          count-erase m l q.active_buffers,
        );
        active-total = λ m.
            ground
              (arith, b.active-total m, active, free, unshared, count-erase m l q.active_buffers);
        items-queues = λ m. ground (
          arith,
          b.items-queues m,
          one,
          free,
          unshared,
          apart,
          old,
          items-replace_last m q.queue last x' e,
        );
        not_shared = λ m. ground (arith, b.not_shared m, free, unshared);
        no_shared_mode = ground (arith, b.no_shared_mode);
        no_shared_slot = ground (arith, b.no_shared_slot);
      }

  overwrite_stale-IsBalanced :
      (n : ℕ) (last x : Item) (q : Queue BufferState)
      → x.slot ≡ n
      → x.is_stale ≡ false
      → last_item q.queue ≡ some last
      → last.is_stale ≡ true
      → IsPending n q
      → IsBalanced core counts (overwrite core last x (q, false)).queue
  overwrite_stale-IsBalanced n last x q at fresh e old b =
      let x' = record x {
        surface_damage = merge_damage core last.surface_damage x.surface_damage;
      } in
      record {
        one_place = λ m. b.one_place m;
        active-total = λ m. b.active-total m;
        items-queues =
            λ m. ground (arith, b.items-queues m, old, items-replace_last m q.queue last x' e);
        not_shared = λ m. b.not_shared m;
        no_shared_mode = b.no_shared_mode;
        no_shared_slot = b.no_shared_slot;
      }

  push_on-IsBalanced :
      (n : ℕ) (o : Option Item) (x : Item) (q : Queue BufferState)
      → last_item q.queue ≡ o
      → x.slot ≡ n
      → x.is_stale ≡ false
      → IsPending n q
      → IsBalanced core counts (push_on core o x q).queue
  push_on-IsBalanced n none x q e at fresh b = push_back-IsBalanced n x q at fresh b
  push_on-IsBalanced n (some last) x q e at fresh b =
      if-keeps (λ (p : Pushed core). IsBalanced core counts p.queue) last.is_droppable
        (λ d.
          if-keeps (λ r. IsBalanced core counts (overwrite core last x r).queue) last.is_stale
            (λ old. overwrite_stale-IsBalanced n last x q at fresh e old b)
            (λ old. overwrite_freed-IsBalanced n last x q at fresh e old b))
        (λ d. push_back-IsBalanced n x q at fresh b)

  pub push-IsBalanced :
      (n : ℕ) (i : Input) (fence : ℕ) (q : Queue BufferState)
      → IsBalanced core counts q
      → is_dequeued (q.slots n).buffer_state ≡ true
      → IsBalanced core counts
          (push core (make_item core n i fence q) (queue_slot core n i fence q)).queue
  unfolding push make_item
  push-IsBalanced n i fence q b h =
      push_on-IsBalanced n _ (make_item core n i fence q) (queue_slot core n i fence q) refl refl
        refl (queue_slot-IsPending n i fence q b h)
