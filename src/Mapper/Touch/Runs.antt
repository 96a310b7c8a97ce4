-- ===== src/Mapper/Touch/Runs.antt =====
-- The cycles of TouchInputMapper in InputReader.cpp, with its aborts: the listener follows the pointers
-- that touch through any run of them.
use osdi_artifact.Prelude.{
  ℕ, ◌==◌, true, false, not, ◌&&◌, List, [], ◌∷◌, ◌≡◌, refl, ap, sym, subst, arith, if-keeps,
}
use osdi_artifact.Mapper.Touch.State.{Parts, Cooked, Touch, Cycle}
use osdi_artifact.Mapper.Touch.Motion.{dispatch_motion}
use osdi_artifact.Mapper.Touch.Cycle.{
  Told, after, abort_touches, dispatch_all, end_cycle, cook_and_dispatch,
}
use osdi_artifact.Mapper.Touch.Stream.{Ids, Agrees, cancels, Stream, Stream-from, Stream-to}
use osdi_artifact.Mapper.Touch.Cycles.{touching, after-Stream, same_bits, dispatch_all-Stream}

module _ (parts : Parts) where
  open parts use {bits, ops}

  -- A cycle, or an abort, such as cancelTouch asks for.
  pub data Step : Type 0 where
    cycle : Cycle → Cooked parts → ℕ → Step
    aborts : Cycle → Step

  abbrev pub step : Step → Touch parts → Told parts
  step (cycle y c buttons) t = cook_and_dispatch parts y c buttons t
  step (aborts y) t = abort_touches parts y t

  abbrev pub run_all : List Step → Touch parts → Told parts
  run_all [] t = ([], t)
  run_all (s ∷ ss) t = after parts (step s t) (run_all ss)

  -- The pointers that the listener knows to be down.
  abbrev pub heard : Touch parts → Ids
  heard t = λ k. not t.current_motion_aborted && touching parts t.last k

  -- A cooked state without pointers has none that touches, and the pointers that touch stand where
  -- their ids lead.
  abbrev pub IsCooked : Step → Type 0
  IsCooked (cycle y c buttons) =
      (c.pointer_count ≡ 0 → (k : ℕ) → touching parts c k ≡ false)
      × Agrees parts c (touching parts c)
  IsCooked (aborts y) = Unit

  abbrev pub AllCooked : List Step → Type 0
  AllCooked [] = Unit
  AllCooked (s ∷ ss) = IsCooked s × AllCooked ss

  -- Between the cycles, the current state is that of the last cycle, whose ids lead to their pointers.
  abbrev pub AtRest : Touch parts → Type 0
  AtRest t =
      (t.current.touching_id_bits ≡ t.last.touching_id_bits)
      × Agrees parts t.last (touching parts t.last)

  abbrev Follows : Touch parts → Told parts → Type 0
  Follows t r = Stream parts (heard t) r.0 (heard r.1) × AtRest r.1

  abort_touches-Follows :
      (y : Cycle) (t : Touch parts) → AtRest t → Follows t (abort_touches parts y t)
  unfolding abort_touches dispatch_motion
  abort_touches-Follows y t h =
      if-keeps (Follows t) (not (ops.is_empty t.current.touching_id_bits))
        (λ e. (((λ k. false), cancels refl (λ k. refl), λ k. refl), h)) (λ e. ((λ k. refl), h))

  cycle-Follows :
      (y : Cycle) (c : Cooked parts) (buttons : ℕ) (t : Touch parts)
      → IsCooked (cycle y c buttons)
      → Agrees parts t.last (touching parts t.last)
      → Follows t (cook_and_dispatch parts y c buttons t)
  unfolding cook_and_dispatch
  cycle-Follows y c buttons t (h, g) l =
      let t1 = record t { current = c; raw_button_state = buttons } in
      let told = dispatch_all-Stream parts y t1 l g in
      let cleared : (k : ℕ) → (c.pointer_count == 0) ≡ true → touching parts c k ≡ false =
        λ k e. h (ground (arith, e)) k in
      let ends_as =
        same_bits parts (dispatch_all parts y t1).1.current.touching_id_bits c.touching_id_bits
          (ap (λ (d : Cooked parts). d.touching_id_bits) told.1) in
      if-keeps (λ (r : Told parts). Follows t (r.0, end_cycle parts r.1))
        (not t.current_motion_aborted)
        (λ e. (
          Stream-from parts (dispatch_all parts y t1).0 (heard t) (touching parts t.last) _
              (λ k. ground (arith, e))
              (Stream-to parts (dispatch_all parts y t1).0 (touching parts t.last)
                (touching parts c) _ (λ k. ground (arith, e, told.2, ends_as k)) told.0),
          (refl, subst (λ p. Agrees parts p (touching parts p)) (sym told.1) g),
        ))
        (λ e. ((λ k. ground (arith, e, cleared k)), (refl, g)))

  step-Follows : (s : Step) (t : Touch parts) → IsCooked s → AtRest t → Follows t (step s t)
  step-Follows (cycle y c buttons) t h r = cycle-Follows y c buttons t h r.1
  step-Follows (aborts y) t h r = abort_touches-Follows y t r

  -- Where a cooked state without pointers has none that touches, and the properties to which an id
  -- of a pointer that touches leads carry that id; and where the start is between two cycles, its
  -- current state that of its last cycle, of which the same holds: through any cycles and aborts,
  -- the motions lead the listener, by the protocol of moves, ups, downs and cancels, from the
  -- pointers that touched at the start to those that touch in the end; from an abort to the end of
  -- the motion, none. By the ids that its pointers carry, a motion with which a pointer goes up
  -- has it still, one with which it goes down has it already, and the index of the motion leads to
  -- it; the first one down and the last one up have actions of their own.
  pub run_all-Stream :
      (ss : List Step) (t : Touch parts)
      → AllCooked ss
      → AtRest t
      → Stream parts (heard t) (run_all ss t).0 (heard (run_all ss t).1)
  run_all-Stream [] t h r = λ k. refl
  run_all-Stream (s ∷ ss) t h r =
      let (first, rest) = step-Follows s t h.0 r in
      after-Stream parts (step s t) (run_all ss) (heard t) (heard (step s t).1) _ first
        (run_all-Stream ss (step s t).1 h.1 rest)
