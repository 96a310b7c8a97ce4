-- ===== src/Display/Queue/Owners/WaitMoves.antt =====
-- BufferQueueProducer.cpp: the wait for a slot is a run of the protocol of the owners, where the other
-- threads play by it.
use osdi_artifact.Prelude.{ℕ, pos, leb_ℤ, ◌&&◌, List, [], ◌∷◌, ◌≡◌, refl, ap, if-keeps}
use osdi_artifact.Display.Queue.State.{Queue, Core}
use osdi_artifact.Display.Queue.Counts.{Counts, IsBalanced}
use osdi_artifact.Display.Queue.Wait.{
  FreeSlotCaller, Wake, Round, stop, take, wait, Waited, failed, found, blocked, round, last_round,
  after_round, wait_for_free_slot,
}
use osdi_artifact.Display.Queue.Found.{All, Fair}
use osdi_artifact.Display.Queue.Owners.{stays, Run-trans, owner}
use osdi_artifact.Display.Queue.Owners.Moves.{Moves, Stays}
use osdi_artifact.Display.Queue.Finding.{Cases, RoundFound, round-Found}

module _ (core : Core) (counts : Counts core) where
  open core use {BufferState, needs_reallocation, wait_while_allocating}

  abbrev Balanced : Queue BufferState → Type 0
  Balanced = IsBalanced core counts

  -- What others do to a balanced queue is a run of the protocol.
  abbrev pub Plays : (Queue BufferState → Queue BufferState) → Type 0
  Plays f = (q : Queue BufferState) → Balanced q → Moves core counts q (f q)

  abbrev pub AllPlay : List (Wake core) → Type 0
  AllPlay = All (λ w. Plays w.after)

  -- To find a slot changes no slot.
  abbrev SameSlots : Queue BufferState → ℕ → Queue BufferState → Type 0
  SameSlots p n q = q.slots ≡ p.slots

  slot-Cases : (caller : FreeSlotCaller) (q : Queue BufferState) → Cases core (SameSlots q) caller q
  slot-Cases caller q = record {
    first_buffer = λ n ns e. refl;
    first_slot = λ n ns a e. refl;
    shared_slot = λ n m e. refl;
  }

  -- From the queue `p`, however the wait ends.
  abbrev pub WaitedMoves : Queue BufferState → Waited core → Type 0
  WaitedMoves p (failed status q) = Moves core counts p q
  WaitedMoves p (found n q ws) = Moves core counts p q × AllPlay ws
  WaitedMoves p (blocked q) = Moves core counts p q

  -- The same slots have the same owners.
  pub same_slots : (p q : Queue BufferState) → q.slots ≡ p.slots → Stays core counts p q
  same_slots p q e k = ap (λ s. owner core counts (record p { slots = s }) k) e

  last_round-Moves :
      (q : Queue BufferState) (r : Round core)
      → RoundFound core (SameSlots q) q r
      → WaitedMoves q (last_round core q r)
  last_round-Moves q (stop status) h = stays (λ k. refl)
  last_round-Moves q (take n q') h = (stays (same_slots q q' h.0), tt)
  last_round-Moves q wait h = stays (λ k. refl)

  WaitedMoves-trans :
      (p q : Queue BufferState) (w : Waited core)
      → Moves core counts p q
      → WaitedMoves q w
      → WaitedMoves p w
  WaitedMoves-trans p q (failed status r) m h = Run-trans m h
  WaitedMoves-trans p q (found n r ws) m h = (Run-trans m h.0, h.1)
  WaitedMoves-trans p q (blocked r) m h = Run-trans m h

  after_round-Moves :
      (q : Queue BufferState) (w : Wake core) (ws : List (Wake core)) (next : Waited core)
      (r : Round core)
      → Balanced q
      → AllPlay (w ∷ ws)
      → WaitedMoves (w.after q) next
      → RoundFound core (SameSlots q) q r
      → WaitedMoves q (after_round core q w ws next r)
  after_round-Moves q w ws next (stop status) b f m h = stays (λ k. refl)
  after_round-Moves q w ws next (take n q') b f m h = (stays (same_slots q q' h.0), f)
  after_round-Moves q w ws next wait b f m h =
      if-keeps (WaitedMoves q) (leb_ℤ (pos 0) q.dequeue_timeout && w.is_timeout) (λ e. f.0 q b)
        (λ e. WaitedMoves-trans q (w.after q) next (f.0 q b) m)

  pub wait_for_free_slot-Moves :
      (caller : FreeSlotCaller) (ws : List (Wake core)) (q : Queue BufferState)
      → Fair core counts ws
      → AllPlay ws
      → Balanced q
      → WaitedMoves q (wait_for_free_slot core caller ws q)
  unfolding wait_for_free_slot
  wait_for_free_slot-Moves caller [] q f g b =
      last_round-Moves q (round core caller q)
        (round-Found core (SameSlots q) caller q (slot-Cases caller q))
  wait_for_free_slot-Moves caller (w ∷ ws) q f g b =
      after_round-Moves q w ws _ (round core caller q) b g
        (wait_for_free_slot-Moves caller ws (w.after q) f.1 g.1 (f.0 q b))
        (round-Found core (SameSlots q) caller q (slot-Cases caller q))
