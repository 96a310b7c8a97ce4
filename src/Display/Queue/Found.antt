-- ===== src/Display/Queue/Found.antt =====
-- waitForFreeSlotThenRelock of BufferQueueProducer.cpp finds a slot that is in no list any more.
use osdi_artifact.Prelude.{
  ℕ, leb_ℤ, pos, ◌&&◌, none, List, [], ◌∷◌, ◌≡◌, ◌∙◌, refl, arith, if-keeps, ap,
}
use osdi_artifact.Display.Queue.State.{Queue, Core}
use osdi_artifact.Display.Queue.Sets.{count}
use osdi_artifact.Display.Queue.Counts.{Counts, IsBalanced, IsLoose, Keeps}
use osdi_artifact.Display.Queue.Wait.{
  FreeSlotCaller, Wake, Round, stop, take, wait, Waited, failed, found, blocked, round, refused,
  last_round, after_round, wait_for_free_slot,
}
use osdi_artifact.Display.Queue.Finding.{Cases, RoundFound, round-Found}

-- What holds of each element.
abbrev pub All {ℓ κ} : {A : Type ℓ} → (A → Type κ) → List A → Type κ
All P [] = Unit
All P (x ∷ xs) = P x × All P xs

module _ (core : Core) (counts : Counts core) where
  open core use {BufferState}

  abbrev Balanced : Queue BufferState → Type 0
  Balanced = IsBalanced core counts

  -- A slot that is found is loose, and the first tests of the round read nothing that has changed.
  abbrev Loose : Queue BufferState → ℕ → Queue BufferState → Type 0
  Loose p n q = IsLoose core counts n q × (refused core q ≡ refused core p)

  -- The first of a list of free slots is in no list once it has left this one.
  Loose-Cases :
      (caller : FreeSlotCaller) (q : Queue BufferState) → Balanced q → Cases core (Loose q) caller q
  unfolding refused
  Loose-Cases caller q b = record {
    first_buffer = λ n ns e. (
      record {
        balanced = record {
          one_place = λ m. ground (arith, b.one_place m, ap (count m) e);
          active-total = λ m. b.active-total m;
          items-queues = λ m. b.items-queues m;
          not_shared = λ m. b.not_shared m;
          no_shared_mode = b.no_shared_mode;
          no_shared_slot = b.no_shared_slot;
        };
        nowhere = ground (arith, b.one_place n, ap (count n) e);
      },
      refl,
    );
    first_slot = λ n ns a e. (
      record {
        balanced = record {
          one_place = λ m. ground (arith, b.one_place m, ap (count m) e);
          active-total = λ m. b.active-total m;
          items-queues = λ m. b.items-queues m;
          not_shared = λ m. b.not_shared m;
          no_shared_mode = b.no_shared_mode;
          no_shared_slot = b.no_shared_slot;
        };
        nowhere = ground (arith, b.one_place n, ap (count n) e);
      },
      refl,
    );
    shared_slot = λ n m e. absurd (ground (arith, m, b.no_shared_mode));
  }

  -- However the wait ends, the queue is balanced; the slot that it gives is loose, and the queue
  -- passes the tests.
  abbrev pub WaitedKeeps : Waited core → Type 0
  WaitedKeeps (failed status q) = Balanced q
  WaitedKeeps (found n q wakes) =
      IsLoose core counts n q × (refused core q ≡ none) × All (λ w. Keeps core counts w.after) wakes
  WaitedKeeps (blocked q) = Balanced q

  last_round-Keeps :
      (q : Queue BufferState) (r : Round core)
      → Balanced q
      → RoundFound core (Loose q) q r
      → WaitedKeeps (last_round core q r)
  last_round-Keeps q (stop status) b h = b
  last_round-Keeps q (take n q') b h = (h.0.0, h.0.1 ∙ h.1, tt)
  last_round-Keeps q wait b h = b

  abbrev pub Fair : List (Wake core) → Type 0
  Fair = All (λ w. Keeps core counts w.after)

  after_round-Keeps :
      (q : Queue BufferState) (w : Wake core) (ws : List (Wake core)) (next : Waited core)
      (r : Round core)
      → Balanced q
      → Fair (w ∷ ws)
      → WaitedKeeps next
      → RoundFound core (Loose q) q r
      → WaitedKeeps (after_round core q w ws next r)
  after_round-Keeps q w ws next (stop status) b f k h = b
  after_round-Keeps q w ws next (take n q') b f k h = (h.0.0, h.0.1 ∙ h.1, f)
  after_round-Keeps q w ws next wait b f k h =
      if-keeps WaitedKeeps (leb_ℤ (pos 0) q.dequeue_timeout && w.is_timeout) (λ e. f.0 q b) (λ e. k)

  pub wait_for_free_slot-Keeps :
      (caller : FreeSlotCaller) (ws : List (Wake core)) (q : Queue BufferState)
      → Fair ws
      → Balanced q
      → WaitedKeeps (wait_for_free_slot core caller ws q)
  unfolding wait_for_free_slot
  wait_for_free_slot-Keeps caller [] q f b =
      last_round-Keeps q (round core caller q) b
        (round-Found core (Loose q) caller q (Loose-Cases caller q b))
  wait_for_free_slot-Keeps caller (w ∷ ws) q f b =
      after_round-Keeps q w ws _ (round core caller q) b f
        (wait_for_free_slot-Keeps caller ws (w.after q) f.1 (f.0 q b))
        (round-Found core (Loose q) caller q (Loose-Cases caller q b))
