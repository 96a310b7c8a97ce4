-- ===== src/Mapper/Vibrator/Steps.antt =====
-- A pattern is played in order, and ends or goes round.
use osdi_artifact.Prelude.{
  Bool, not, ◌%◌, ◌==◌, if◌then◌else◌, ap₂, ℕ, suc, ◌+◌, ◌<◌, ◌≤◌, ℤ, pos, is_neg, ◌+ℤ◌, true,
  false, ltb, List, [], ◌∷◌, ◌++◌, ◌≡◌, refl, ap, ◌∙◌, subst, arith, length, Bool-cases, inl, inr,
}
use osdi_artifact.Mapper.Vibrator.{
  Vibrator, Command, vibrate_for, cancel, request_timeout, command_at, play, next_step, armed,
  vibrate, timeout_expired, stop_vibrating,
}

-- The timeouts at the times `nows`, each when the step is due, with all commands.
abbrev pub expire_all : List ℤ → Vibrator → Vibrator × List Command
expire_all [] v = (v, [])
expire_all (now ∷ nows) v =
    let r = timeout_expired v.next_step_time now v in
    let rest = expire_all nows r.0 in (rest.0, r.1 ++ rest.1)

-- The commands of the steps from `i` on, at the times `nows`.
abbrev score : (ℕ → ℤ) → ℕ → List ℤ → List Command
unfolding ◌+ℤ◌
score p i [] = []
score p i (now ∷ nows) = command_at i (p i) ∷ request_timeout (now +ℤ p i) ∷ score p (suc i) nows

-- Pauses and vibrations in turn, with the lengths from `i` on, the next a vibration if `on`.
abbrev pub alternating : Bool → (ℕ → ℤ) → ℕ → List ℤ → List Command
unfolding ◌+ℤ◌
alternating on p i [] = []
alternating on p i (now ∷ nows) =
    (if on then vibrate_for (p i) else cancel)
    ∷ request_timeout (now +ℤ p i)
    ∷ alternating (not on) p (suc i) nows

score-alternating :
    (on : Bool) (p : ℕ → ℤ) (i : ℕ) (nows : List ℤ)
    → (i % 2 == 1) ≡ on
    → score p i nows ≡ alternating on p i nows
unfolding score alternating
score-alternating on p i [] h = refl
score-alternating on p i (now ∷ nows) h =
    ap₂ (λ c cs. c ∷ request_timeout (now +ℤ p i) ∷ cs) (ground (arith, h))
      (score-alternating (not on) p (suc i) nows (ground (arith, h)))

-- A due timeout of a pattern that plays is the next step.
due :
    (now : ℤ) (v : Vibrator)
    → v.vibrating ≡ true
    → timeout_expired v.next_step_time now v ≡ next_step now v
unfolding timeout_expired
due now v h = ground arith

succ : (i : ℕ) → pos i +ℤ pos 1 ≡ pos (suc i)
unfolding ◌+ℤ◌
succ i = ground arith

-- Step i is the last one that was played, of a pattern of `size` steps.
pub record IsAt (p : ℕ → ℤ) (size : ℕ) (repeat : ℤ) (i : ℕ) (v : Vibrator) : Type 0 where
  pub index : v.index ≡ pos i
  pub vibrating : v.vibrating ≡ true
  pub plays : v.pattern ≡ p
  pub sized : v.pattern_size ≡ size
  pub repeats : v.repeat ≡ repeat

module _ {p : ℕ → ℤ} {size : ℕ} {repeat : ℤ} where
  next : {i : ℕ} {v : Vibrator} → IsAt p size repeat i v → v.index +ℤ pos 1 ≡ pos (suc i)
  next {i = i} at = ap (λ k. k +ℤ pos 1) at.index ∙ succ i

  play-IsAt :
      (now : ℤ) (j i : ℕ) (v : Vibrator)
      → IsAt p size repeat i v
      → IsAt p size repeat j (play now j v).0
  unfolding play
  play-IsAt now j i v at = record {
    index = refl;
    vibrating = at.vibrating;
    plays = at.plays;
    sized = at.sized;
    repeats = at.repeats;
  }

  next_step-within :
      (now : ℤ) (i : ℕ) (v : Vibrator)
      → IsAt p size repeat i v
      → suc i < size
      → next_step now v ≡ play now (suc i) v
  unfolding next_step
  next_step-within now i v at lt =
      let e = next at in rw (e, next_step) (ground (arith, lt, at.sized))

  next_step-over :
      (now : ℤ) (i : ℕ) (v : Vibrator)
      → IsAt p size repeat i v
      → size ≤ suc i
      → is_neg repeat ≡ true
      → ((next_step now v).1 ≡ cancel ∷ []) × ((next_step now v).0.vibrating ≡ false)
  unfolding next_step stop_vibrating
  next_step-over now i v at le neg =
      let e = next at in rw (e, next_step) (ground (arith, le, neg, at.sized, at.repeats))

  play-score :
      (now : ℤ) (i j : ℕ) (v : Vibrator) (nows : List ℤ)
      → IsAt p size repeat i v
      → (play now j v).1 ++ score p (suc j) nows ≡ score p j (now ∷ nows)
  unfolding play score
  play-score now i j v nows at =
      ap (λ (q : ℕ → ℤ). command_at j (q j) ∷ request_timeout (now +ℤ q j) ∷ score p (suc j) nows)
        at.plays

  -- The steps that are left in the pattern, one at each timeout.
  expire_all-score :
      (nows : List ℤ) (i : ℕ) (v : Vibrator)
      → IsAt p size repeat i v
      → i + length nows < size
      → ((expire_all nows v).1 ≡ score p (suc i) nows)
        × IsAt p size repeat (i + length nows) (expire_all nows v).0
  unfolding score
  expire_all-score [] i v at lt = (refl, subst (λ k. IsAt p size repeat k v) (omega arith) at)
  expire_all-score (now ∷ nows) i v at lt =
      let e : timeout_expired v.next_step_time now v ≡ play now (suc i) v =
        due now v at.vibrating ∙ next_step-within now i v at (omega (arith, lt)) in
      let (commands, end) =
        expire_all-score nows (suc i) (play now (suc i) v).0 (play-IsAt now (suc i) i v at)
          (omega (arith, lt)) in
      rw e (
        ap (λ t. (play now (suc i) v).1 ++ t) commands ∙ play-score now i (suc i) v nows at,
        subst (λ k. IsAt p size repeat k (expire_all nows (play now (suc i) v).0).0) (omega arith)
            end,
      )

  -- A pattern that goes round never leaves itself.
  stays_within :
      (now : ℤ) (i r : ℕ) (v : Vibrator)
      → IsAt p size repeat i v
      → repeat ≡ pos r
      → r < size
      → (j : ℕ) × (j < size) × (next_step now v ≡ play now j v)
  unfolding next_step
  stays_within now i r v at round lt = elim (Bool-cases (ltb (suc i) size)) [
    | inl more ↦ (suc i, ground arith, next_step-within now i v at (ground arith))
    | inr over ↦
        let e = next at in
        (r, lt, rw (e, next_step) (ground (arith, over, round, at.sized, at.repeats)))
  ]

  expire_all-round :
      (nows : List ℤ) (i r : ℕ) (v : Vibrator)
      → IsAt p size repeat i v
      → i < size
      → repeat ≡ pos r
      → r < size
      → (j : ℕ) × (j < size) × IsAt p size repeat j (expire_all nows v).0
  expire_all-round [] i r v at hi round lt = (i, hi, at)
  expire_all-round (now ∷ nows) i r v at hi round lt =
      let (j, hj, step) = stays_within now i r v at round lt in
      rw (due now v at.vibrating ∙ step)
        (expire_all-round nows j r (play now j v).0 (play-IsAt now j i v at) hj round lt)

vibrate-play :
    (p : ℕ → ℤ) (k : ℕ) (repeat token now : ℤ) (v : Vibrator)
    → vibrate p (suc k) repeat token now v ≡ play now 0 (armed p (suc k) repeat token v)
unfolding vibrate next_step ◌+ℤ◌
vibrate-play p k repeat token now v = ground arith

start-play :
    (p : ℕ → ℤ) (k : ℕ) (repeat token now : ℤ) (v : Vibrator)
    → IsAt p (suc k) repeat 0 (vibrate p (suc k) repeat token now v).0
      × ((vibrate p (suc k) repeat token now v).1 ≡ score p 0 (now ∷ []))
unfolding play score
start-play p k repeat token now v =
    rw (vibrate-play p k repeat token now v)
      (record { index = refl; vibrating = refl; plays = refl; sized = refl; repeats = refl }, refl)

-- A pattern of k + 1 steps that does not repeat: with a timeout for each step that is left, when it
-- is due, each step is played once, in order, pauses and vibrations in turn from a pause on; the timeout after the last
-- cancels the vibration and ends the pattern.
pub vibrate-score :
    (p : ℕ → ℤ) (k : ℕ) (repeat token now last : ℤ) (nows : List ℤ) (v : Vibrator)
    → is_neg repeat ≡ true
    → length nows ≡ k
    → let r = vibrate p (suc k) repeat token now v in
      let s = expire_all nows r.0 in
      let e = timeout_expired s.0.next_step_time last s.0 in
      (r.1 ++ s.1 ≡ alternating false p 0 (now ∷ nows))
      × (e.1 ≡ cancel ∷ [])
      × (e.0.vibrating ≡ false)
unfolding score alternating
vibrate-score p k repeat token now last nows v neg h =
    let r = vibrate p (suc k) repeat token now v in
    let (at, first) = start-play p k repeat token now v in
    let (rest, end) = expire_all-score nows 0 r.0 at (omega (arith, h)) in
    let s = expire_all nows r.0 in
    let (over, still) = next_step-over last (0 + length nows) s.0 end (omega (arith, h)) neg in
    let e = due last s.0 end.vibrating in
    (
      ap (λ t. t ++ s.1) first
          ∙ (ap (λ t. score p 0 (now ∷ []) ++ t) rest
              ∙ score-alternating false p 0 (now ∷ nows) refl),
      ap (λ t. t.1) e ∙ over,
      ap (λ t. t.0.vibrating) e ∙ still,
    )

-- A pattern that repeats from a step of its own plays for ever: after any timeouts, each when the
-- step is due, it vibrates on, and its index is a step of the pattern.
pub vibrate-round :
    (p : ℕ → ℤ) (k r : ℕ) (token now : ℤ) (nows : List ℤ) (v : Vibrator)
    → r < suc k
    → let w = (expire_all nows (vibrate p (suc k) (pos r) token now v).0).0 in
      (w.vibrating ≡ true) × ((i : ℕ) × (i < suc k) × (w.index ≡ pos i))
vibrate-round p k r token now nows v lt =
    let (at, first) = start-play p k (pos r) token now v in
    let (i, hi, end) =
      expire_all-round nows 0 r (vibrate p (suc k) (pos r) token now v).0 at (omega arith) refl
        lt in
    (end.vibrating, (i, hi, end.index))
