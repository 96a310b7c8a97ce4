-- ===== src/Mapper/Touch/Cycle.antt =====
-- TouchInputMapper of InputReader.cpp: hovering, buttons, the abort of touches, and the part of
-- cookAndDispatch that dispatches where the device is no pointer on the screen.
use Prim.Native.Nat.{bit_and, bit_or}
use osdi_artifact.Prelude.{
  ℕ, ◌-◌, ◌^◌, ◌==◌, true, false, not, ◌&&◌, ◌||◌, none, List, [], ◌∷◌, ◌++◌, if◌then◌else◌,
}
use osdi_artifact.Mapper.Touch.State.{
  Parts, cancel, hover_enter, hover_move, hover_exit, button_press, button_release, Cooked, Touch,
  Motion, Cycle,
}
use osdi_artifact.Mapper.Touch.Motion.{dispatch_motion, dispatch_touches}

module _ (parts : Parts) where
  open parts use {bits, ops}

  abbrev pub Told : Type 0
  Told = List (Motion parts) × Touch parts

  -- One dispatch after another.
  abbrev pub after : Told → (Touch parts → Told) → Told
  after (ms, t) k = (ms ++ (k t).0, (k t).1)

  unfoldable pub dispatch_hover_exit : Cycle → Touch parts → Told
  dispatch_hover_exit y t =
      if t.sent_hover_enter
        && (ops.is_empty t.current.hovering_id_bits
            || not (ops.is_empty t.current.touching_id_bits))
      then (
        dispatch_motion parts y hover_exit 0 t.last.button_state t.last.device_timestamp t.last
              t.last.hovering_id_bits none t.down_time
            ∷ [],
        record t { sent_hover_enter = false },
      )
      else ([], t)

  abbrev pub hover_motion : Cycle → Touch parts → Motion parts
  hover_motion y t =
      dispatch_motion parts y hover_move 0 t.raw_button_state t.current.device_timestamp t.current
        t.current.hovering_id_bits none t.down_time

  unfoldable pub dispatch_hover_enter_and_move : Cycle → Touch parts → Told
  dispatch_hover_enter_and_move y t =
      if ops.is_empty t.current.touching_id_bits && not (ops.is_empty t.current.hovering_id_bits)
      then (if not t.sent_hover_enter
          then (
            dispatch_motion parts y hover_enter 0 t.raw_button_state t.current.device_timestamp
                  t.current t.current.hovering_id_bits none t.down_time
                ∷ hover_motion y t
                ∷ [],
            record t { sent_hover_enter = true },
          )
          else (hover_motion y t ∷ [], t))
      else ([], t)

  unfoldable pub find_active_id_bits : Cooked parts → bits.Bits
  find_active_id_bits c =
      if not (ops.is_empty c.touching_id_bits) then c.touching_id_bits else c.hovering_id_bits

  -- a & ~b of 32 bits.
  abbrev pub and_not : ℕ → ℕ → ℕ
  and_not a b = bit_and a (2 ^ 32 - 1 - b)

  -- The loop over the released buttons, from the last button state on.
  unfoldable pub release_buttons : Cycle → Touch parts → List ℕ → ℕ → List (Motion parts)
  release_buttons y t [] buttons = []
  release_buttons y t (n ∷ ns) buttons =
      let action = ops.value_for_bit n in
      let now = and_not buttons action in
      dispatch_motion parts y button_release action now t.current.device_timestamp t.current
        (find_active_id_bits t.last) none t.down_time
      ∷ release_buttons y t ns now

  unfoldable pub dispatch_button_release : Cycle → Touch parts → Told
  dispatch_button_release y t =
      let released = ops.bits_of (and_not t.last.button_state t.current.button_state) in
      (release_buttons y t (bits.marked released) t.last.button_state, t)

  -- The loop over the pressed buttons, from the last button state on too.
  unfoldable pub press_buttons : Cycle → Touch parts → List ℕ → ℕ → List (Motion parts)
  press_buttons y t [] buttons = []
  press_buttons y t (n ∷ ns) buttons =
      let action = ops.value_for_bit n in
      let now = bit_or buttons action in
      dispatch_motion parts y button_press action now t.current.device_timestamp t.current
        (find_active_id_bits t.current) none t.down_time
      ∷ press_buttons y t ns now

  unfoldable pub dispatch_button_press : Cycle → Touch parts → Told
  dispatch_button_press y t =
      let pressed = ops.bits_of (and_not t.current.button_state t.last.button_state) in
      (press_buttons y t (bits.marked pressed) t.last.button_state, t)

  unfoldable pub abort_touches : Cycle → Touch parts → Told
  abort_touches y t =
      if not (ops.is_empty t.current.touching_id_bits)
      then (
        dispatch_motion parts y cancel 0 t.current.button_state t.current.device_timestamp t.current
              t.current.touching_id_bits none t.down_time
            ∷ [],
        record t { current_motion_aborted = true },
      )
      else ([], t)

  -- What a cycle sends, where no motion has been aborted.
  unfoldable pub dispatch_all : Cycle → Touch parts → Told
  dispatch_all y t =
      after
        (after
          (after (after (dispatch_button_release y t) (dispatch_hover_exit y))
            (dispatch_touches parts y))
          (dispatch_hover_enter_and_move y))
        (dispatch_button_press y)

  -- The end of an aborted motion, and the copy of the current state for the next cycle.
  abbrev pub end_cycle : Touch parts → Touch parts
  end_cycle t = record t {
    current_motion_aborted =
        if t.current.pointer_count == 0 then false else t.current_motion_aborted;
    last = t.current;
  }

  -- A cycle that has cooked the state `c` from a raw state with the buttons `buttons`.
  unfoldable pub cook_and_dispatch : Cycle → Cooked parts → ℕ → Touch parts → Told
  cook_and_dispatch y c buttons t =
      let t1 = record t { current = c; raw_button_state = buttons } in
      let (ms, t2) = if not t1.current_motion_aborted then dispatch_all y t1 else ([], t1) in
      (ms, end_cycle t2)
