-- ===== src/Mapper/Touch/Cycles.antt =====
-- A cycle of TouchInputMapper in InputReader.cpp in which no motion is aborted: the motions follow the
-- pointers that touch, and hovering and buttons do not disturb them.
use Prim.Native.Nat.{bit_or}
use osdi_artifact.Prelude.{
  ℕ, not, ◌&&◌, ◌||◌, List, [], ◌∷◌, ◌++◌, ◌≡◌, refl, sym, ◌∙◌, ap, subst, if-keeps,
}
use osdi_artifact.Mapper.Touch.State.{Parts, Cooked, Touch, Cycle}
use osdi_artifact.Mapper.Touch.Motion.{
  dispatch_motion, dispatch_touches, dispatch_changes, dispatch_downs, down_time_of, update_pointer,
  update_moved_pointers, dispatch_ups,
}
use osdi_artifact.Mapper.Touch.Cycle.{
  Told, after, dispatch_hover_exit, dispatch_hover_enter_and_move, release_buttons,
  dispatch_button_release, press_buttons, dispatch_button_press, dispatch_all, and_not,
}
use osdi_artifact.Mapper.Touch.Stream.{
  Ids, SameIds, Agrees, passes, Stream, Stream-from, Stream-to, Stream-append,
}
use osdi_artifact.Mapper.Touch.Touches.{dispatch_touches-Stream}

module _ (parts : Parts) where
  open parts use {bits, ops}

  abbrev pub touching : Cooked parts → Ids
  touching c = bits.has_bit c.touching_id_bits

  -- A result that changes neither the current state nor the last.
  record Passes (t : Touch parts) (r : Told parts) : Type 0 where
    streams : (s : Ids) → Stream parts s r.0 s
    same_current : r.1.current ≡ t.current
    same_last : r.1.last ≡ t.last
    same_aborted : r.1.current_motion_aborted ≡ t.current_motion_aborted

  nothing : (t : Touch parts) → Passes t ([], t)
  nothing t = record {
    streams = λ s k. refl;
    same_current = refl;
    same_last = refl;
    same_aborted = refl;
  }

  dispatch_hover_exit-Passes :
      (y : Cycle) (t : Touch parts) → Passes t (dispatch_hover_exit parts y t)
  unfolding dispatch_hover_exit dispatch_motion
  dispatch_hover_exit-Passes y t =
      if-keeps (Passes t)
        (t.sent_hover_enter
          && (ops.is_empty t.current.hovering_id_bits
              || not (ops.is_empty t.current.touching_id_bits)))
        (λ e. record {
          streams = λ s. (s, passes refl (λ k. refl), λ k. refl);
          same_current = refl;
          same_last = refl;
          same_aborted = refl;
        })
        (λ e. nothing t)

  dispatch_hover_enter_and_move-Passes :
      (y : Cycle) (t : Touch parts) → Passes t (dispatch_hover_enter_and_move parts y t)
  unfolding dispatch_hover_enter_and_move dispatch_motion
  dispatch_hover_enter_and_move-Passes y t =
      if-keeps (Passes t)
        (ops.is_empty t.current.touching_id_bits && not (ops.is_empty t.current.hovering_id_bits))
        (λ e.
          if-keeps (Passes t) (not t.sent_hover_enter)
            (λ f. record {
              streams = λ s. (s, passes refl (λ k. refl), (s, passes refl (λ k. refl), λ k. refl));
              same_current = refl;
              same_last = refl;
              same_aborted = refl;
            })
            (λ f. record {
              streams = λ s. (s, passes refl (λ k. refl), λ k. refl);
              same_current = refl;
              same_last = refl;
              same_aborted = refl;
            }))
        (λ e. nothing t)

  release_buttons-Stream :
      (y : Cycle) (t : Touch parts) (ns : List ℕ) (b : ℕ) (s : Ids)
      → Stream parts s (release_buttons parts y t ns b) s
  unfolding release_buttons dispatch_motion
  release_buttons-Stream y t [] b s = λ k. refl
  release_buttons-Stream y t (n ∷ ns) b s = (
    s,
    passes refl (λ k. refl),
    release_buttons-Stream y t ns (and_not parts b (ops.value_for_bit n)) s,
  )

  press_buttons-Stream :
      (y : Cycle) (t : Touch parts) (ns : List ℕ) (b : ℕ) (s : Ids)
      → Stream parts s (press_buttons parts y t ns b) s
  unfolding press_buttons dispatch_motion
  press_buttons-Stream y t [] b s = λ k. refl
  press_buttons-Stream y t (n ∷ ns) b s =
      (s, passes refl (λ k. refl), press_buttons-Stream y t ns (bit_or b (ops.value_for_bit n)) s)

  dispatch_button_release-Passes :
      (y : Cycle) (t : Touch parts) → Passes t (dispatch_button_release parts y t)
  unfolding dispatch_button_release
  dispatch_button_release-Passes y t = record {
    streams = λ s. release_buttons-Stream y t _ _ s;
    same_current = refl;
    same_last = refl;
    same_aborted = refl;
  }

  dispatch_button_press-Passes :
      (y : Cycle) (t : Touch parts) → Passes t (dispatch_button_press parts y t)
  unfolding dispatch_button_press
  dispatch_button_press-Passes y t = record {
    streams = λ s. press_buttons-Stream y t _ _ s;
    same_current = refl;
    same_last = refl;
    same_aborted = refl;
  }

  -- A result that changes neither the current state nor what touched last.
  pub record Keeps (t u : Touch parts) : Type 0 where
    pub same_current : u.current ≡ t.current
    pub same_last : u.last.touching_id_bits ≡ t.last.touching_id_bits
    pub same_aborted : u.current_motion_aborted ≡ t.current_motion_aborted

  update_moved_pointers-touching :
      (c : Cooked parts) (ids : List ℕ) (p : Cooked parts)
      → (update_moved_pointers parts c ids p).0.touching_id_bits ≡ p.touching_id_bits
  unfolding update_moved_pointers update_pointer
  update_moved_pointers-touching c [] p = refl
  update_moved_pointers-touching c (id ∷ ids) p =
      update_moved_pointers-touching c ids (update_pointer parts c id p).0

  dispatch_downs-Keeps :
      (y : Cycle) (t : Touch parts) (ids : List ℕ) (d : bits.Bits)
      → Keeps t (dispatch_downs parts y t ids d).1
  unfolding dispatch_downs
  dispatch_downs-Keeps y t [] d = record {
    same_current = refl;
    same_last = refl;
    same_aborted = refl;
  }
  dispatch_downs-Keeps y t (id ∷ ids) d =
      let d' = bits.mark_bit d id in
      let rest =
        dispatch_downs-Keeps y (record t { down_time = down_time_of parts y t d' }) ids d' in
      record {
        same_current = rest.same_current;
        same_last = rest.same_last;
        same_aborted = rest.same_aborted;
      }

  pub dispatch_touches-Keeps :
      (y : Cycle) (t : Touch parts) → Keeps t (dispatch_touches parts y t).1
  unfolding dispatch_touches dispatch_changes
  dispatch_touches-Keeps y t =
      let now = t.current.touching_id_bits in
      let before = t.last.touching_id_bits in
      let same : Keeps t t = record {
        same_current = refl;
        same_last = refl;
        same_aborted = refl;
      } in
      let P : Told parts → Type 0 = λ r. Keeps t r.1 in
      if-keeps P (ops.eq_bits now before)
        (λ e. if-keeps P (ops.is_empty now) (λ f. same) (λ f. same))
        (λ e.
          let moved =
            (update_moved_pointers parts t.current (bits.marked (ops.both before now)) t.last).0 in
          let t1 = record t { last = moved } in
          let rest =
            dispatch_downs-Keeps y t1 (bits.marked (ops.without now before))
              (dispatch_ups parts y t1 (bits.marked (ops.without before now)) before).1 in
          record {
            same_current = rest.same_current;
            same_last =
                rest.same_last
                ∙ update_moved_pointers-touching t.current (bits.marked (ops.both before now))
                    t.last;
            same_aborted = rest.same_aborted;
          })

  pub after-Stream :
      (r : Told parts) (k : Touch parts → Told parts) (s e f : Ids)
      → Stream parts s r.0 e
      → Stream parts e (k r.1).0 f
      → Stream parts s (after parts r k).0 f
  after-Stream (ms, t) k s e f g h = Stream-append parts ms (k t).0 s e f g h

  -- The pointers of a bit set that is another's.
  pub same_bits : (a b : bits.Bits) → a ≡ b → SameIds (bits.has_bit b) (bits.has_bit a)
  same_bits a b e k = ap (λ c. bits.has_bit c k) e

  pub dispatch_all-Stream :
      (y : Cycle) (t : Touch parts)
      → Agrees parts t.last (touching t.last)
      → Agrees parts t.current (touching t.current)
      → let r = dispatch_all parts y t in
        Stream parts (touching t.last) r.0 (touching t.current)
        × (r.1.current ≡ t.current)
        × (r.1.current_motion_aborted ≡ t.current_motion_aborted)
  unfolding dispatch_all
  dispatch_all-Stream y t l c =
      let before = touching t.last in
      let now = touching t.current in
      let r1 = dispatch_button_release parts y t in
      let k1 = dispatch_button_release-Passes y t in
      let r2 = dispatch_hover_exit parts y r1.1 in
      let k2 = dispatch_hover_exit-Passes y r1.1 in
      let r3 = dispatch_touches parts y r2.1 in
      let k3 = dispatch_touches-Keeps y r2.1 in
      let r4 = dispatch_hover_enter_and_move parts y r3.1 in
      let k4 = dispatch_hover_enter_and_move-Passes y r3.1 in
      let r5 = dispatch_button_press parts y r4.1 in
      let k5 = dispatch_button_press-Passes y r4.1 in
      let start_last = k2.same_last ∙ k1.same_last in
      let start =
        same_bits r2.1.last.touching_id_bits t.last.touching_id_bits
          (ap (λ (c : Cooked parts). c.touching_id_bits) start_last) in
      let end_current = k2.same_current ∙ k1.same_current in
      let end_bits =
        same_bits r2.1.current.touching_id_bits t.current.touching_id_bits
          (ap (λ (c : Cooked parts). c.touching_id_bits) end_current) in
      let touches =
        Stream-to parts r3.0 before (touching r2.1.current) now (λ k. sym (end_bits k))
          (Stream-from parts r3.0 before (touching r2.1.last) (touching r2.1.current) (λ k. start k)
            (dispatch_touches-Stream parts y r2.1
              (subst (λ p. Agrees parts p (touching p)) (sym start_last) l)
              (subst (λ p. Agrees parts p (touching p)) (sym end_current) c))) in
      (
        Stream-append parts (r1.0 ++ r2.0 ++ r3.0 ++ r4.0) r5.0 before now now
            (Stream-append parts (r1.0 ++ r2.0 ++ r3.0) r4.0 before now now
              (Stream-append parts (r1.0 ++ r2.0) r3.0 before before now
                (Stream-append parts r1.0 r2.0 before before before (k1.streams before)
                  (k2.streams before))
                touches)
              (k4.streams now))
            (k5.streams now),
        k5.same_current ∙ k4.same_current ∙ k3.same_current ∙ end_current,
        k5.same_aborted ∙ k4.same_aborted ∙ k3.same_aborted ∙ k2.same_aborted ∙ k1.same_aborted,
      )
