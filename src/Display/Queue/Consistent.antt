-- ===== src/Display/Queue/Consistent.antt =====
-- What BufferQueueCore checks as its consistency, and what its parts outside the repository do.
use osdi_artifact.Prelude.{
  ℕ, ◌+◌, ◌≤◌, ◌&&◌, Bool, true, false, not, Option, none, List, [], ◌∷◌, ◌≡◌, arith, subst,
  if-keeps, ◌==◌, update, Bool-cases, inl, inr,
}
use osdi_artifact.Display.Queue.State.{Core, Queue, Slot}
use osdi_artifact.Display.Queue.{cancelled, cancel_slot, detach_slot, mark_requested, detach_front}
use osdi_artifact.Display.Queue.Sets.{
  count, count-insert, count-erase, count-remove, count-push_back,
}

module _ (core : Core) where
  open core use {
    BufferState, IsValid, is_free, is_dequeued, is_shared, set_shared, detach_producer, cancel,
    clear_buffer_slot, wait_while_allocating,
  }

  -- A slot is in one list at most; one that is not free is active, and an active one is not free
  -- unless it is shared; a slot of free_slots has no buffer.
  pub record IsConsistent (q : Queue BufferState) : Type 0 where
    pub one_place :
        (n : ℕ) → count n q.free_slots + count n q.free_buffers + count n q.active_buffers ≤ 1
    pub owned-active :
        (n : ℕ) → is_free (q.slots n).buffer_state ≡ false → count n q.active_buffers ≡ 1
    pub active-owned :
        (n : ℕ)
        → count n q.active_buffers ≡ 1
        → (is_free (q.slots n).buffer_state && not (is_shared (q.slots n).buffer_state)) ≡ false
    pub all_valid : (n : ℕ) → IsValid (q.slots n).buffer_state
    pub free_slots-none : (n : ℕ) → count n q.free_slots ≡ 1 → (q.slots n).graphic_buffer ≡ none

  -- BufferSlot.h: a slot is free when it is neither dequeued, queued nor acquired; a slot that is
  -- not shared has one owner, and cancel takes it from the producer. clearBufferSlotLocked resets
  -- the state and drops the buffer. While a thread waits, others keep the queue consistent.
  pub record Laws : Type 0 where
    pub is_free-is_dequeued : (s : BufferState) → is_dequeued s ≡ true → is_free s ≡ false
    pub is_free-cancel :
        (s : BufferState)
        → IsValid s
        → is_dequeued s ≡ true
        → is_shared s ≡ false
        → is_free (cancel s) ≡ true
    pub cancel-IsValid : (s : BufferState) → IsValid s → IsValid (cancel s)
    pub set_shared-IsValid :
        (b : Bool) (s : BufferState) → is_free s ≡ true → IsValid (set_shared b s)
    pub clear-IsValid : (s : Slot BufferState) → IsValid (clear_buffer_slot s).buffer_state
    pub is_shared-cancel : (s : BufferState) → is_shared (cancel s) ≡ is_shared s
    pub is_shared-set_shared : (b : Bool) (s : BufferState) → is_shared (set_shared b s) ≡ b
    pub is_free-set_shared : (b : Bool) (s : BufferState) → is_free (set_shared b s) ≡ is_free s
    pub is_free-clear : (s : Slot BufferState) → is_free (clear_buffer_slot s).buffer_state ≡ true
    pub graphic_buffer-clear : (s : Slot BufferState) → (clear_buffer_slot s).graphic_buffer ≡ none
    pub wait-IsConsistent :
        (q : Queue BufferState) → IsConsistent q → IsConsistent (wait_while_allocating q)

module _ (core : Core) (laws : Laws core) where
  open core use {
    BufferState, IsValid, is_free, is_dequeued, is_shared, set_shared, detach_producer, cancel,
    clear_buffer_slot, wait_while_allocating,
  }

  pub cancelled-IsValid : (s : BufferState) → IsValid s → IsValid (cancelled core false s)
  unfolding cancelled
  cancelled-IsValid s v =
      if-keeps IsValid (is_free (cancel s)) (λ e. laws.set_shared-IsValid false (cancel s) e)
        (λ e. laws.cancel-IsValid s v)

  -- What is true of every slot is so after a write of one that has it.
  update-keeps :
      (P : Slot BufferState → Type 0) (f : ℕ → Slot BufferState) (n : ℕ) (s : Slot BufferState)
      → ((m : ℕ) → P (f m))
      → P s
      → (m : ℕ) → P (update f n s m)
  update-keeps P f n s p h m = if-keeps P (n == m) (λ e. h) (λ e. p m)

  pub mark_requested-IsConsistent :
      (n : ℕ) (q : Queue BufferState)
      → IsConsistent core q
      → IsConsistent core (mark_requested core n q)
  mark_requested-IsConsistent n q c = record {
    one_place = λ m. c.one_place m;
    owned-active = λ m h. ground (arith, c.owned-active m);
    active-owned = λ m h. ground (arith, c.active-owned m);
    free_slots-none = λ m h. ground (arith, c.free_slots-none m);
    all_valid =
        λ m. update-keeps (λ s. IsValid s.buffer_state) q.slots n _ c.all_valid (c.all_valid n) m;
  }

  pub detach_slot-IsConsistent :
      (n : ℕ) (q : Queue BufferState)
      → IsConsistent core q
      → is_dequeued (q.slots n).buffer_state ≡ true
      → IsConsistent core (detach_slot core n q)
  detach_slot-IsConsistent n q c h =
      let s = q.slots n in
      let owned = c.owned-active n (laws.is_free-is_dequeued s.buffer_state h) in
      let place = c.one_place n in
      let cleared =
        clear_buffer_slot (record s { buffer_state = detach_producer s.buffer_state }) in
      let free = laws.is_free-clear (record s { buffer_state = detach_producer s.buffer_state }) in
      let empty =
        laws.graphic_buffer-clear (record s { buffer_state = detach_producer s.buffer_state }) in
      let absent : count n q.free_slots ≡ 0 = omega (arith, owned, place) in
      record {
        one_place = λ m. ground (
          arith,
          c.one_place m,
          count-insert m n q.free_slots absent,
          count-erase m n q.active_buffers,
          owned,
        );
        owned-active =
            λ m g. ground (arith, c.owned-active m, free, count-erase m n q.active_buffers);
        active-owned =
            λ m g. ground (arith, c.active-owned m, owned, count-erase m n q.active_buffers);
        free_slots-none =
            λ m g. ground (arith, c.free_slots-none m, empty, count-insert m n q.free_slots absent);
        all_valid = λ m.
            update-keeps (λ s. IsValid s.buffer_state) q.slots n _ c.all_valid
              (laws.clear-IsValid _) m;
      }

  pub detach_front-IsConsistent :
      (fs : List ℕ) (q : Queue BufferState)
      → fs ≡ q.free_buffers
      → IsConsistent core q
      → IsConsistent core (detach_front core fs q).done.queue
  unfolding detach_front
  detach_front-IsConsistent [] q e c = c
  detach_front-IsConsistent (n ∷ fs) q e c =
      let place = c.one_place n in
      let free = laws.is_free-clear (q.slots n) in
      let empty = laws.graphic_buffer-clear (q.slots n) in
      let front : 1 ≤ count n q.free_buffers = subst (λ l. 1 ≤ count n l) e (ground arith) in
      let absent : count n q.free_slots ≡ 0 = omega (arith, front, place) in
      record {
        one_place = λ m. ground (
          arith,
          c.one_place m,
          count-insert m n q.free_slots absent,
          count-remove m n q.free_buffers,
          front,
        );
        owned-active = λ m g. ground (arith, c.owned-active m, free);
        active-owned = λ m g. ground (arith, c.active-owned m, front, place);
        free_slots-none =
            λ m g. ground (arith, c.free_slots-none m, empty, count-insert m n q.free_slots absent);
        all_valid = λ m.
            update-keeps (λ s. IsValid s.buffer_state) q.slots n _ c.all_valid
              (laws.clear-IsValid _) m;
      }

  -- Where the queue is not in shared buffer mode, a slot that cancelBuffer leaves shared is owned
  -- still, and one that is not is free.
  pub cancelled-shared :
      (s : BufferState)
      → IsValid s
      → is_dequeued s ≡ true
      → is_shared (cancelled core false s) ≡ not (is_free (cancelled core false s))
  unfolding cancelled
  cancelled-shared s v h = ground (
    arith,
    laws.is_free-cancel s v,
    laws.is_shared-cancel s,
    laws.is_shared-set_shared false (cancel s),
    laws.is_free-set_shared false (cancel s),
  )

  pub cancel_slot-IsConsistent :
      (n : ℕ) (fence : Option ℕ) (q : Queue BufferState)
      → q.shared_buffer_mode ≡ false
      → IsConsistent core q
      → is_dequeued (q.slots n).buffer_state ≡ true
      → IsConsistent core (cancel_slot core n fence q)
  unfolding cancel_slot
  cancel_slot-IsConsistent n fence q mode c h =
      let s = (q.slots n).buffer_state in
      let owned = c.owned-active n (laws.is_free-is_dequeued s h) in
      let place = c.one_place n in
      let valid = cancelled-IsValid s (c.all_valid n) in
      let shared = cancelled-shared s (c.all_valid n) h in
      elim (Bool-cases (is_shared (cancelled core false s))) [
        | inl e ↦
            rw (mode, e)
              record {
                one_place = λ m. c.one_place m;
                owned-active = λ m g. ground (arith, c.owned-active m, owned);
                active-owned = λ m g. ground (arith, c.active-owned m, e);
                free_slots-none = λ m g. ground (arith, c.free_slots-none m, owned, place);
                all_valid =
                    λ m. update-keeps (λ s. IsValid s.buffer_state) q.slots n _ c.all_valid valid m;
              }
        | inr e ↦
            rw (mode, e)
              record {
                one_place = λ m. ground (
                  arith,
                  c.one_place m,
                  count-push_back m n q.free_buffers,
                  count-erase m n q.active_buffers,
                  owned,
                );
                owned-active = λ m g.
                    ground (arith, c.owned-active m, shared, e, count-erase m n q.active_buffers);
                active-owned = λ m g.
                    ground (arith, c.active-owned m, owned, count-erase m n q.active_buffers);
                free_slots-none = λ m g. ground (arith, c.free_slots-none m, owned, place);
                all_valid =
                    λ m. update-keeps (λ s. IsValid s.buffer_state) q.slots n _ c.all_valid valid m;
              }
      ]
