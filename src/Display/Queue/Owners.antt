-- ===== src/Display/Queue/Owners.antt =====
-- BufferQueueProducer.cpp: who owns each slot, and the protocol by which slots change hands.
pub mod Moves
pub mod QueueMoves
pub mod WaitMoves
pub mod DequeueMoves
pub mod Protocol
pub mod Refines
use osdi_artifact.Prelude.{
  ℕ, Option, none, some, List, [], ◌∷◌, ◌++◌, ltb, ◌==◌, Bool, true, false, ◌≡◌, ◌∙◌, sym, refl,
  arith, if◌then◌else◌, update,
}
use osdi_artifact.Display.Queue.State.{Queue, Core}
use osdi_artifact.Display.Queue.Counts.{View, Counts}

pub data Owner : Type 0 where
  nobody producer queued consumer : Owner

-- A state with one owner at most has this one.
abbrev pub owner_of : View → Owner
owner_of v =
    if ltb 0 v.dequeues
    then producer
    else if ltb 0 v.queues
    then queued
    else if ltb 0 v.acquires
    then consumer
    else nobody

abbrev pub Owners : Type 0
Owners = ℕ → Owner

abbrev pub give : Owners → ℕ → Owner → Owners
give o n w = λ k. if n == k then w else o k

abbrev pub Same : Owners → Owners → Type 0
Same o p = (k : ℕ) → p k ≡ o k

-- What a call of the producer does in the protocol: it takes a slot, gives it back, or queues it, by
-- which the slot that was queued last can be dropped.
pub data Label : Type 0 where
  takes : ℕ → Label
  gives_back : ℕ → Label
  queues : ℕ → Option ℕ → Label

-- One step of the producer: it takes a slot of nobody, and gives back or queues a slot of its own; a
-- slot that is dropped was queued, and goes to nobody.
pub data Move (o : Owners) : Label → Owners → Type 0 where
  taken : {p : Owners} (n : ℕ) → o n ≡ nobody → Same (give o n producer) p → Move o (takes n) p
  given : {p : Owners} (n : ℕ) → o n ≡ producer → Same (give o n nobody) p → Move o (gives_back n) p
  sent : {p : Owners} (n : ℕ) → o n ≡ producer → Same (give o n queued) p → Move o (queues n none) p
  replaced :
      {p : Owners} (n m : ℕ)
      → o n ≡ producer
      → o m ≡ queued
      → Same (give (give o m nobody) n queued) p
      → Move o (queues n (some m)) p

-- One step of the consumer: it takes what is queued, and gives it back.
pub data Consume (o : Owners) : Owners → Type 0 where
  acquired : {p : Owners} (n : ℕ) → o n ≡ queued → Same (give o n consumer) p → Consume o p
  released : {p : Owners} (n : ℕ) → o n ≡ consumer → Same (give o n nobody) p → Consume o p

-- A run in which the producer does what the labels say, the last one first, and the consumer any steps.
pub data Run (o : Owners) : List Label → Owners → Type 0 where
  stays : {p : Owners} → Same o p → Run o [] p
  moves : {p q : Owners} {l : Label} {ls : List Label} → Run o ls p → Move p l q → Run o (l ∷ ls) q
  consumes : {p q : Owners} {ls : List Label} → Run o ls p → Consume p q → Run o ls q

Move-Same : {o p q : Owners} {l : Label} → Move o l p → Same p q → Move o l q
Move-Same (taken n h s) e = taken n h (λ k. e k ∙ s k)
Move-Same (given n h s) e = given n h (λ k. e k ∙ s k)
Move-Same (sent n h s) e = sent n h (λ k. e k ∙ s k)
Move-Same (replaced n m h g s) e = replaced n m h g (λ k. e k ∙ s k)

Consume-Same : {o p q : Owners} → Consume o p → Same p q → Consume o q
Consume-Same (acquired n h s) e = acquired n h (λ k. e k ∙ s k)
Consume-Same (released n h s) e = released n h (λ k. e k ∙ s k)

pub Run-Same : {o p q : Owners} {ls : List Label} → Run o ls p → Same p q → Run o ls q
Run-Same (stays s) e = stays (λ k. e k ∙ s k)
Run-Same (moves r m) e = moves r (Move-Same m e)
Run-Same (consumes r c) e = consumes r (Consume-Same c e)

pub Run-trans : {o p q : Owners} {ls ms : List Label} → Run o ls p → Run p ms q → Run o (ms ++ ls) q
Run-trans r (stays s) = Run-Same r s
Run-trans r (moves t m) = moves (Run-trans r t) m
Run-trans r (consumes t c) = consumes (Run-trans r t) c

module _ (core : Core) (counts : Counts core) where
  open core use {BufferState}
  open counts use {view}

  abbrev pub owner : Queue BufferState → Owners
  owner q n = owner_of (view (q.slots n).buffer_state)
