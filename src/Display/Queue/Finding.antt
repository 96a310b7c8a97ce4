-- ===== src/Display/Queue/Finding.antt =====
-- The search for a slot in waitForFreeSlotThenRelock of BufferQueueProducer.cpp, case by case: what
-- holds of the first free buffer, of the first free slot and of the shared slot holds of the result.
use osdi_artifact.Prelude.{
  ℕ, Bool, true, false, Option, none, some, List, [], ◌∷◌, ◌≡◌, refl, if-keeps,
}
use osdi_artifact.Display.Queue.State.{Queue, Core, Status}
use osdi_artifact.Display.Queue.Wait.{
  FreeSlotCaller, front, get_free_buffer, get_free_slot, free_for, or_else, shared_or, find_slot,
  too_many_buffers, Round, stop, take, wait, round_of, no_slot, round, refused, would_not_wait,
}

module _ (core : Core) where
  open core use {BufferState}

  -- What is said of a slot that is found and of the queue behind it.
  abbrev pub Found : (ℕ → Queue BufferState → Type 0) → Option (ℕ × Queue BufferState) → Type 0
  Found G none = Unit
  Found G (some (n, q)) = G n q

  -- dequeueBuffer takes a free slot only where allocation is allowed.
  abbrev pub MayTake : FreeSlotCaller → Queue BufferState → Type 0
  MayTake FreeSlotCaller.dequeue q = q.allow_allocation ≡ true
  MayTake FreeSlotCaller.attach q = Unit

  -- The three cases, for the queue `q` that is searched.
  pub record Cases (G : ℕ → Queue BufferState → Type 0) (caller : FreeSlotCaller)
      (q : Queue BufferState) : Type 0 where
    pub first_buffer :
        (n : ℕ) (ns : List ℕ) → q.free_buffers ≡ n ∷ ns → G n (record q { free_buffers = ns })
    pub first_slot :
        (n : ℕ) (ns : List ℕ)
        → MayTake caller q
        → q.free_slots ≡ n ∷ ns
        → G n (record q { free_slots = ns })
    pub shared_slot : (n : ℕ) → q.shared_buffer_mode ≡ true → q.shared_buffer_slot ≡ some n → G n q

  module _ (G : ℕ → Queue BufferState → Type 0) where
    front-Found :
        (k : ℕ → List ℕ → Queue BufferState) (fs : List ℕ)
        → ((n : ℕ) (ns : List ℕ) → fs ≡ n ∷ ns → G n (k n ns))
        → Found G (front core fs k)
    front-Found k [] h = tt
    front-Found k (n ∷ ns) h = h n ns refl

    or_else-Found :
        (a b : Option (ℕ × Queue BufferState)) → Found G a → Found G b → Found G (or_else a b)
    or_else-Found none b h k = k
    or_else-Found (some a) b h k = h

    get_free_buffer-Found :
        (caller : FreeSlotCaller) (q : Queue BufferState)
        → Cases G caller q
        → Found G (get_free_buffer core q)
    unfolding get_free_buffer
    get_free_buffer-Found caller q c = front-Found _ q.free_buffers c.first_buffer

    get_free_slot-Found :
        (caller : FreeSlotCaller) (q : Queue BufferState)
        → Cases G caller q
        → MayTake caller q
        → Found G (get_free_slot core q)
    unfolding get_free_slot
    get_free_slot-Found caller q c a = front-Found _ q.free_slots (λ n ns. c.first_slot n ns a)

    free_for-Found :
        (caller : FreeSlotCaller) (q : Queue BufferState)
        → Cases G caller q
        → Found G (free_for core caller q)
    unfolding free_for
    free_for-Found FreeSlotCaller.dequeue q c =
        or_else-Found (get_free_buffer core q) _ (get_free_buffer-Found FreeSlotCaller.dequeue q c)
          (if-keeps (Found G) q.allow_allocation
            (λ e. get_free_slot-Found FreeSlotCaller.dequeue q c e) (λ e. tt))
    free_for-Found FreeSlotCaller.attach q c =
        or_else-Found (get_free_slot core q) _ (get_free_slot-Found FreeSlotCaller.attach q c tt)
          (get_free_buffer-Found FreeSlotCaller.attach q c)

    shared_or-Found :
        (o : Option ℕ) (caller : FreeSlotCaller) (q : Queue BufferState)
        → q.shared_buffer_mode ≡ true
        → q.shared_buffer_slot ≡ o
        → Cases G caller q
        → Found G (shared_or core o caller q)
    shared_or-Found none caller q m e c = free_for-Found caller q c
    shared_or-Found (some n) caller q m e c = c.shared_slot n m e

    find_slot-Found :
        (caller : FreeSlotCaller) (q : Queue BufferState)
        → Cases G caller q
        → Found G (find_slot core caller q)
    unfolding find_slot
    find_slot-Found caller q c =
        if-keeps (Found G) (too_many_buffers core q) (λ e. tt)
          (λ e.
            if-keeps (Found G) q.shared_buffer_mode
              (λ m. shared_or-Found q.shared_buffer_slot caller q m refl c)
              (λ m. free_for-Found caller q c))

    -- What is said of a round, whose tests the queue `p` before it passes.
    abbrev pub RoundFound : Queue BufferState → Round core → Type 0
    RoundFound p (stop status) = Unit
    RoundFound p (take n q) = G n q × (refused core p ≡ none)
    RoundFound p wait = Unit

    no_slot-Found : (p : Queue BufferState) (now : Bool) → RoundFound p (no_slot core now)
    no_slot-Found p true = tt
    no_slot-Found p false = tt

    round_of-Found :
        (p : Queue BufferState) (s : Option Status) (f : Option (ℕ × Queue BufferState))
        (now : Bool)
        → refused core p ≡ s
        → Found G f
        → RoundFound p (round_of core s f now)
    round_of-Found p (some status) f now e h = tt
    round_of-Found p none (some (n, q)) now e h = (h, e)
    round_of-Found p none none now e h = no_slot-Found p now

    pub round-Found :
        (caller : FreeSlotCaller) (q : Queue BufferState)
        → Cases G caller q
        → RoundFound q (round core caller q)
    unfolding round
    round-Found caller q c =
        round_of-Found q (refused core q) (find_slot core caller q) (would_not_wait core q) refl
          (find_slot-Found caller q c)
