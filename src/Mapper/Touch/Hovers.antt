-- ===== src/Mapper/Touch/Hovers.antt =====
-- The hover motions of TouchInputMapper in InputReader.cpp: an enter, moves, an exit.
use Prim.Native.Nat.{bit_or}
use osdi_artifact.Prelude.{
  ℕ, ◌==◌, Bool, true, false, not, ◌&&◌, ◌||◌, Option, none, some, List, [], ◌∷◌, ◌++◌, length, ◌≡◌,
  refl, sym, ◌∙◌, ap, subst, arith, if◌then◌else◌, if-keeps,
}
use osdi_artifact.Mapper.Touch.State.{
  Parts, Action, cancel, move, down, up, pointer_down, pointer_up, hover_enter, hover_move,
  hover_exit, button_press, button_release, Cooked, Touch, Motion, Cycle,
}
use osdi_artifact.Mapper.Touch.Motion.{
  index_of, final_action, alone, dispatch_motion, dispatch_move, dispatch_touches, dispatch_changes,
  dispatch_downs, down_time_of, update_moved_pointers, dispatch_ups,
}
use osdi_artifact.Mapper.Touch.Cycle.{
  Told, dispatch_hover_exit, dispatch_hover_enter_and_move, release_buttons,
  dispatch_button_release, press_buttons, dispatch_button_press, dispatch_all, cook_and_dispatch,
  and_not,
}
use osdi_artifact.Mapper.Touch.Cycles.{dispatch_touches-Keeps}

abbrev pub is_hover : Action → Bool
is_hover cancel = false
is_hover move = false
is_hover down = false
is_hover up = false
is_hover pointer_down = false
is_hover pointer_up = false
is_hover hover_enter = true
is_hover hover_move = true
is_hover hover_exit = true
is_hover button_press = false
is_hover button_release = false

module _ (parts : Parts) where
  open parts use {bits, ops}

  -- What one motion makes of a listener that knows of a hover or not: an enter only where there is
  -- none, a move and an exit only where there is one.
  pub data Hovers (b : Bool) (m : Motion parts) (e : Bool) : Type 0 where
    enters : m.action ≡ hover_enter → b ≡ false → e ≡ true → Hovers b m e
    hovers : m.action ≡ hover_move → b ≡ true → e ≡ true → Hovers b m e
    exits : m.action ≡ hover_exit → b ≡ true → e ≡ false → Hovers b m e
    other : is_hover m.action ≡ false → e ≡ b → Hovers b m e

  abbrev pub HoverStream : Bool → List (Motion parts) → Bool → Type 0
  HoverStream b [] e = e ≡ b
  HoverStream b (m ∷ ms) e = (c : Bool) × Hovers b m c × HoverStream c ms e

  HoverStream-append :
      (ms ns : List (Motion parts)) (a b c : Bool)
      → HoverStream a ms b
      → HoverStream b ns c
      → HoverStream a (ms ++ ns) c
  HoverStream-append [] ns a b c h k = subst (λ d. HoverStream d ns c) h k
  HoverStream-append (m ∷ ms) ns a b c (d, g, h) k = (d, g, HoverStream-append ms ns d b c h k)

  -- A result without hover motions that does not change whether there is a hover.
  abbrev Passes : Touch parts → Told parts → Type 0
  Passes t r = ((b : Bool) → HoverStream b r.0 b) × (r.1.sent_hover_enter ≡ t.sent_hover_enter)

  final_action-hover :
      (o : Option ℕ) (index size : ℕ) (a : Action)
      → is_hover a ≡ false
      → is_hover (alone a) ≡ false
      → is_hover (final_action o index size a) ≡ false
  final_action-hover none index size a h k = h
  final_action-hover (some id) index size a h k =
      if-keeps (λ x. is_hover x ≡ false) (size == 1 && index == 0) (λ e. k) (λ e. h)

  dispatch_ups-Hover :
      (y : Cycle) (t : Touch parts) (ids : List ℕ) (d : bits.Bits) (b : Bool)
      → HoverStream b (dispatch_ups parts y t ids d).0 b
  unfolding dispatch_ups dispatch_motion
  dispatch_ups-Hover y t [] d b = refl
  dispatch_ups-Hover y t (id ∷ ids) d b = (
    b,
    other
        (final_action-hover (some id) (index_of (some id) (bits.marked d)) (length (bits.marked d))
          pointer_up refl refl)
        refl,
    dispatch_ups-Hover y t ids (ops.clear_bit d id) b,
  )

  dispatch_downs-Hover :
      (y : Cycle) (t : Touch parts) (ids : List ℕ) (d : bits.Bits)
      → Passes t (dispatch_downs parts y t ids d)
  unfolding dispatch_downs dispatch_motion
  dispatch_downs-Hover y t [] d = ((λ b. refl), refl)
  dispatch_downs-Hover y t (id ∷ ids) d =
      let d' = bits.mark_bit d id in
      let rest =
        dispatch_downs-Hover y (record t { down_time = down_time_of parts y t d' }) ids d' in
      (
        (λ b. (
          b,
          other
              (final_action-hover (some id) (index_of (some id) (bits.marked d'))
                (length (bits.marked d')) pointer_down refl refl)
              refl,
          rest.0 b,
        )),
        rest.1,
      )

  dispatch_touches-Hover : (y : Cycle) (t : Touch parts) → Passes t (dispatch_touches parts y t)
  unfolding dispatch_touches dispatch_changes dispatch_motion
  dispatch_touches-Hover y t =
      let now = t.current.touching_id_bits in
      let before = t.last.touching_id_bits in
      let P = Passes t in
      if-keeps P (ops.eq_bits now before)
        (λ e.
          if-keeps P (ops.is_empty now) (λ f. ((λ b. refl), refl))
            (λ f. ((λ b. (b, other refl refl, refl)), refl)))
        (λ e.
          let (last, moved) =
            update_moved_pointers parts t.current (bits.marked (ops.both before now)) t.last in
          let t1 = record t { last = last } in
          let moving =
            (moved || not (t.current.button_state == t.last.button_state))
            && not (ops.is_empty (ops.both before now)) in
          let (ups, d) = dispatch_ups parts y t1 (bits.marked (ops.without before now)) before in
          let down_ids = bits.marked (ops.without now before) in
          let middle = if moving then dispatch_move parts y t1 d ∷ [] else [] in
          let rest = dispatch_downs-Hover y t1 down_ids d in
          (
            (λ b.
                HoverStream-append (ups ++ middle) (dispatch_downs parts y t1 down_ids d).0 b b b
                  (HoverStream-append ups middle b b b
                    (dispatch_ups-Hover y t1 (bits.marked (ops.without before now)) before b)
                    (if-keeps (λ ms. HoverStream b ms b) moving (λ f. (b, other refl refl, refl))
                      (λ f. refl)))
                  (rest.0 b)),
            rest.1,
          ))

  release_buttons-Hover :
      (y : Cycle) (t : Touch parts) (ns : List ℕ) (buttons : ℕ) (b : Bool)
      → HoverStream b (release_buttons parts y t ns buttons) b
  unfolding release_buttons dispatch_motion
  release_buttons-Hover y t [] buttons b = refl
  release_buttons-Hover y t (n ∷ ns) buttons b = (
    b,
    other refl refl,
    release_buttons-Hover y t ns (and_not parts buttons (ops.value_for_bit n)) b,
  )

  press_buttons-Hover :
      (y : Cycle) (t : Touch parts) (ns : List ℕ) (buttons : ℕ) (b : Bool)
      → HoverStream b (press_buttons parts y t ns buttons) b
  unfolding press_buttons dispatch_motion
  press_buttons-Hover y t [] buttons b = refl
  press_buttons-Hover y t (n ∷ ns) buttons b =
      (b, other refl refl, press_buttons-Hover y t ns (bit_or buttons (ops.value_for_bit n)) b)

  -- A cooked state in which pointers hover and none touches.
  abbrev pub is_hovering : Cooked parts → Bool
  is_hovering c = ops.is_empty c.touching_id_bits && not (ops.is_empty c.hovering_id_bits)

  dispatch_hover_exit-Hover :
      (y : Cycle) (t : Touch parts)
      → let r = dispatch_hover_exit parts y t in
        HoverStream t.sent_hover_enter r.0 r.1.sent_hover_enter
        × (r.1.current ≡ t.current)
        × (is_hovering t.current ≡ false → r.1.sent_hover_enter ≡ false)
  unfolding dispatch_hover_exit dispatch_motion
  dispatch_hover_exit-Hover y t =
      let P : Told parts → Type 0 = λ r.
        HoverStream t.sent_hover_enter r.0 r.1.sent_hover_enter
        × (r.1.current ≡ t.current)
        × (is_hovering t.current ≡ false → r.1.sent_hover_enter ≡ false) in
      if-keeps P
        (t.sent_hover_enter
          && (ops.is_empty t.current.hovering_id_bits
              || not (ops.is_empty t.current.touching_id_bits)))
        (λ e. ((false, exits refl (ground (arith, e)) refl, refl), refl, λ h. refl))
        (λ e. (refl, refl, λ h. ground (arith, e, h)))

  dispatch_hover_enter_and_move-Hover :
      (y : Cycle) (t : Touch parts)
      → let r = dispatch_hover_enter_and_move parts y t in
        HoverStream t.sent_hover_enter r.0 r.1.sent_hover_enter
        × (r.1.sent_hover_enter ≡ (t.sent_hover_enter || is_hovering t.current))
  unfolding dispatch_hover_enter_and_move dispatch_motion
  dispatch_hover_enter_and_move-Hover y t =
      let P : Told parts → Type 0 = λ r.
        HoverStream t.sent_hover_enter r.0 r.1.sent_hover_enter
        × (r.1.sent_hover_enter ≡ (t.sent_hover_enter || is_hovering t.current)) in
      if-keeps P (is_hovering t.current)
        (λ e.
          if-keeps P (not t.sent_hover_enter)
            (λ f. (
              (true, enters refl (ground (arith, f)) refl, (true, hovers refl refl refl, refl)),
              ground (arith, e),
            ))
            (λ f. (
              (true, hovers refl (ground (arith, f)) refl, ground (arith, f)),
              ground (arith, e, f),
            )))
        (λ e. (refl, ground (arith, e)))

  -- The dispatch of touches leaves the current state.
  touches_keep_current :
      (y : Cycle) (t : Touch parts) → (dispatch_touches parts y t).1.current ≡ t.current
  touches_keep_current y t = (dispatch_touches-Keeps parts y t).same_current

  dispatch_all-Hover :
      (y : Cycle) (t : Touch parts)
      → let r = dispatch_all parts y t in
        HoverStream t.sent_hover_enter r.0 r.1.sent_hover_enter
        × (r.1.sent_hover_enter ≡ is_hovering t.current)
  unfolding dispatch_all dispatch_button_release dispatch_button_press
  dispatch_all-Hover y t =
      let r1 = dispatch_button_release parts y t in
      let r2 = dispatch_hover_exit parts y t in
      let k2 = dispatch_hover_exit-Hover y t in
      let r3 = dispatch_touches parts y r2.1 in
      let k3 = dispatch_touches-Hover y r2.1 in
      let r4 = dispatch_hover_enter_and_move parts y r3.1 in
      let k4 = dispatch_hover_enter_and_move-Hover y r3.1 in
      let r5 = dispatch_button_press parts y r4.1 in
      let a = t.sent_hover_enter in
      let b = r2.1.sent_hover_enter in
      let c = r3.1.sent_hover_enter in
      let d = r4.1.sent_hover_enter in
      let current : is_hovering r3.1.current ≡ is_hovering t.current =
        ap (λ (p : Cooked parts). is_hovering p) (touches_keep_current y r2.1 ∙ k2.1) in
      (
        HoverStream-append (r1.0 ++ r2.0 ++ r3.0 ++ r4.0) r5.0 a d d
            (HoverStream-append (r1.0 ++ r2.0 ++ r3.0) r4.0 a c d
              (HoverStream-append (r1.0 ++ r2.0) r3.0 a b c
                (HoverStream-append r1.0 r2.0 a a b (release_buttons-Hover y t _ _ a) k2.0)
                (subst (λ e. HoverStream b r3.0 e) (sym k3.1) (k3.0 b)))
              k4.0)
            (press_buttons-Hover y r4.1 _ _ d),
        ground (arith, k2.2, k3.1, k4.1, current),
      )

  -- A cycle sends a hover exit or a hover move only where an enter has been sent, and an enter only
  -- where none has, by the order of its motions; and where no motion is aborted, at its end an enter
  -- has been sent exactly where pointers hover and none touches.
  pub cook_and_dispatch-Hovers :
      (y : Cycle) (c : Cooked parts) (buttons : ℕ) (t : Touch parts)
      → let r = cook_and_dispatch parts y c buttons t in
        HoverStream t.sent_hover_enter r.0 r.1.sent_hover_enter
        × (t.current_motion_aborted ≡ false → r.1.sent_hover_enter ≡ is_hovering c)
  unfolding cook_and_dispatch
  cook_and_dispatch-Hovers y c buttons t =
      let t1 = record t { current = c; raw_button_state = buttons } in
      let told = dispatch_all-Hover y t1 in
      if-keeps
        (λ (r : Told parts).
          HoverStream t.sent_hover_enter r.0 r.1.sent_hover_enter
          × (t.current_motion_aborted ≡ false → r.1.sent_hover_enter ≡ is_hovering c))
        (not t.current_motion_aborted) (λ e. (told.0, λ h. told.1))
        (λ e. (refl, λ h. absurd (ground (arith, e, h))))
