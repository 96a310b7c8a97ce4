-- ===== src/Display/Queue/Fewer.antt =====
-- waitForFreeSlotThenRelock of BufferQueueProducer.cpp: where dequeueBuffer would look for a further
-- slot, it leaves it fewer to try.
use osdi_artifact.Prelude.{
  ℕ, ◌+◌, ◌*◌, ◌≤◌, leb_ℤ, pos, Bool, true, false, not, ◌&&◌, List, [], ◌∷◌, length, ◌≡◌, arith, ap,
  if-keeps,
}
use osdi_artifact.Display.Queue.State.{Queue, Core}
use osdi_artifact.Display.Queue.Wait.{
  FreeSlotCaller, Wake, Round, stop, take, wait, Waited, failed, found, blocked, round, last_round,
  after_round, wait_for_free_slot,
}
use osdi_artifact.Display.Queue.Dequeue.{is_slot}
use osdi_artifact.Display.Queue.Found.{All}
use osdi_artifact.Display.Queue.Finding.{Cases, RoundFound, round-Found}

module _ (core : Core) (bound : ℕ) where
  open core use {BufferState, needs_reallocation}

  -- What is left to try: the free buffers, and for each wake as many as it can bring.
  abbrev pub left : List (Wake core) → Queue BufferState → ℕ
  left ws q = length q.free_buffers + length ws * (bound + 1)

  abbrev pub IsBounded : Wake core → Type 0
  IsBounded w = (q : Queue BufferState) → length (w.after q).free_buffers ≤ bound

  -- A slot for which the loop would go on.
  abbrev pub goes_on : ℕ → Queue BufferState → Bool
  goes_on n q = not q.allow_allocation && not (is_slot q.shared_buffer_slot n)

  -- What is left for a slot that is found, if the loop goes on.
  abbrev pub Fewer : ℕ → Bool → ℕ → Type 0
  Fewer rest true m = rest + 1 ≤ m
  Fewer rest false m = Unit

  Fewer_lem : (rest m : ℕ) (b : Bool) → rest + 1 ≤ m → Fewer rest b m
  Fewer_lem rest m true h = h
  Fewer_lem rest m false h = tt

  Fewer-false : (rest m : ℕ) (b : Bool) → b ≡ false → Fewer rest b m
  Fewer-false rest m true h = absurd (ground arith)
  Fewer-false rest m false h = tt

  abbrev FindsFewer : Queue BufferState → ℕ → Queue BufferState → Type 0
  FindsFewer p n q = Fewer (length q.free_buffers) (goes_on n q) (length p.free_buffers)

  -- A free slot is taken only where allocation is allowed, and the loop does not go on from there.
  fewer-Cases : (q : Queue BufferState) → Cases core (FindsFewer q) FreeSlotCaller.dequeue q
  fewer-Cases q = record {
    first_buffer = λ n ns e.
        Fewer_lem (length ns) (length q.free_buffers) _ (omega (arith, ap (length {A = ℕ}) e));
    first_slot = λ n ns a e.
        Fewer-false (length q.free_buffers) (length q.free_buffers) _ (ground (arith, a));
    shared_slot =
        λ n m e. Fewer-false (length q.free_buffers) (length q.free_buffers) _ (ground (arith, e));
  }

  round-Fewer :
      (q : Queue BufferState)
      → RoundFound core (FindsFewer q) q (round core FreeSlotCaller.dequeue q)
  round-Fewer q = round-Found core (FindsFewer q) FreeSlotCaller.dequeue q (fewer-Cases q)

  -- After a wait there is less left, if the loop goes on.
  abbrev pub WaitedFewer : ℕ → Waited core → Type 0
  WaitedFewer m (failed status q) = Unit
  WaitedFewer m (found n q ws) = Fewer (left ws q) (goes_on n q) m × All IsBounded ws
  WaitedFewer m (blocked q) = Unit

  Fewer-mono :
      (rest m rest' m' : ℕ) (b : Bool)
      → (rest + 1 ≤ m → rest' + 1 ≤ m')
      → Fewer rest b m
      → Fewer rest' b m'
  Fewer-mono rest m rest' m' true f h = f h
  Fewer-mono rest m rest' m' false f h = tt

  WaitedFewer-mono : (m m' : ℕ) (w : Waited core) → m ≤ m' → WaitedFewer m w → WaitedFewer m' w
  WaitedFewer-mono m m' (failed status q) le h = tt
  WaitedFewer-mono m m' (found n q ws) le h =
      (Fewer-mono (left ws q) m (left ws q) m' (goes_on n q) (λ k. omega (arith, k, le)) h.0, h.1)
  WaitedFewer-mono m m' (blocked q) le h = tt

  last_round-Fewer :
      (q : Queue BufferState) (r : Round core)
      → RoundFound core (FindsFewer q) q r
      → WaitedFewer (left [] q) (last_round core q r)
  last_round-Fewer q (stop status) h = tt
  last_round-Fewer q (take n q') h = (
    Fewer-mono (length q'.free_buffers) (length q.free_buffers) (left [] q') (left [] q)
        (goes_on n q') (λ k. omega (arith, k)) h.0,
    tt,
  )
  last_round-Fewer q wait h = tt

  after_round-Fewer :
      (q : Queue BufferState) (w : Wake core) (ws : List (Wake core)) (next : Waited core)
      (r : Round core)
      → All IsBounded (w ∷ ws)
      → WaitedFewer (left ws (w.after q)) next
      → RoundFound core (FindsFewer q) q r
      → WaitedFewer (left (w ∷ ws) q) (after_round core q w ws next r)
  after_round-Fewer q w ws next (stop status) f k h = tt
  after_round-Fewer q w ws next (take n q') f k h = (
    Fewer-mono (length q'.free_buffers) (length q.free_buffers) (left (w ∷ ws) q') (left (w ∷ ws) q)
        (goes_on n q') (λ j. omega (arith, j)) h.0,
    f,
  )
  after_round-Fewer q w ws next wait f k h =
      if-keeps (WaitedFewer (left (w ∷ ws) q)) (leb_ℤ (pos 0) q.dequeue_timeout && w.is_timeout)
        (λ e. tt) (λ e. WaitedFewer-mono _ (left (w ∷ ws) q) next (grind (arith, f.0 q)) k)

  pub wait_for_free_slot-Fewer :
      (ws : List (Wake core)) (q : Queue BufferState)
      → All IsBounded ws
      → WaitedFewer (left ws q) (wait_for_free_slot core FreeSlotCaller.dequeue ws q)
  unfolding wait_for_free_slot
  wait_for_free_slot-Fewer [] q f = last_round-Fewer q _ (round-Fewer q)
  wait_for_free_slot-Fewer (w ∷ ws) q f =
      after_round-Fewer q w ws _ _ f (wait_for_free_slot-Fewer ws (w.after q) f.1) (round-Fewer q)
