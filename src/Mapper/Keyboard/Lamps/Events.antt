-- ===== src/Mapper/Keyboard/Lamps/Events.antt =====
-- KeyboardInputMapper of InputReader.cpp: whatever events come, the lamps show the meta state.
use osdi_artifact.Prelude.{
  ℕ, ℤ, pos, Bool, true, false, ◌&&◌, if◌then◌else◌, if-keeps, Option, List, [], ◌∷◌, refl, ◌∙◌,
  not, arith, Bool-cases, Option-cases, inl, inr, to_bool,
}
use osdi_artifact.Input.Event.{EventKind, ev_key, RawEvent}
use osdi_artifact.Mapper.KeyCode.{KeyCode, profile_switch}
use osdi_artifact.Mapper.Keyboard.State.{
  Keyboard, Flags, KeyMouse, KeyArgs, KeyHub, find_key_down, erase, on, off,
}
use osdi_artifact.Mapper.Keyboard.{
  update_meta_state_if_needed, send, switch_profile, new_key, key_down, key_up, mapped, process_key,
  on_event, process, push, cleared, reset, is_keyboard_or_gamepad_key,
}
use osdi_artifact.Mapper.Keyboard.Steps.{process_all}
use osdi_artifact.Mapper.Keyboard.Lamps.{
  Lamps, LampsShow, SameLamps, LampsShow-SameLamps, update_led_state-LampsShow,
  update_meta_state-LampsShow,
}

module _ (hub : KeyHub) (lamps : Lamps hub) where
  open hub use {State}

  -- After an event, which can send a key.
  abbrev SentShows : Keyboard × State × Option KeyArgs → Type 0
  SentShows r = LampsShow hub lamps (r.0, r.1)

  fade-SameLamps :
      (b : Bool) (st : State)
      → SameLamps hub lamps st (hub.next_sequence_num (if b then hub.fade_pointer st else st)).1
  fade-SameLamps true st led = lamps.next_sequence_num led _ ∙ lamps.fade_pointer led st
  fade-SameLamps false st led = lamps.next_sequence_num led st

  cancel-SameLamps :
      (b : Bool) (when : ℤ) (st : State)
      → SameLamps hub lamps st (if b then hub.cancel_touch when st else st)
  cancel-SameLamps true when st led = lamps.cancel_touch led when st
  cancel-SameLamps false when st led = refl

  switch_profile-SameLamps :
      (c : KeyCode) (m : KeyMouse) (st : State) → SameLamps hub lamps st (switch_profile hub c m st)
  unfolding switch_profile
  switch_profile-SameLamps profile_switch on st led = ground (arith, lamps.set_key_mouse led off st)
  switch_profile-SameLamps profile_switch off st led = ground (arith, lamps.set_key_mouse led on st)
  switch_profile-SameLamps _ _ st led = refl

  send-LampsShow :
      (m : KeyMouse) (when : ℤ) (down : Bool) (s : ℤ) (c : KeyCode) (meta : ℕ) (f : Flags)
      (k : Keyboard) (st : State)
      → LampsShow hub lamps (k, st)
      → SentShows (send hub m when down s c meta f (k, st))
  unfolding send
  send-LampsShow m when down s c meta f k st h =
      let r = update_meta_state_if_needed hub c down (k, st) in
      LampsShow-SameLamps hub lamps r.1 r.2 _ (fade-SameLamps (down && not (hub.is_meta_key c)) r.2)
        (update_meta_state-LampsShow hub lamps c down k st h)

  new_key-LampsShow :
      (m : KeyMouse) (when s : ℤ) (c : KeyCode) (meta : ℕ) (f : Flags) (k : Keyboard) (st : State)
      → LampsShow hub lamps (k, st)
      → SentShows (new_key hub m when s c meta f (k, st))
  unfolding new_key
  new_key-LampsShow m when s c meta f k st h =
      if-keeps SentShows (f.virtual && hub.should_drop_virtual_key when c s st) (λ e. h)
        (λ e.
          send-LampsShow m when true s c meta f (push hub when s c k) _
            (LampsShow-SameLamps hub lamps k st _ (cancel-SameLamps f.gesture when st) h))

  key_down-LampsShow :
      (m : KeyMouse) (when s : ℤ) (c : KeyCode) (meta : ℕ) (f : Flags) (k : Keyboard) (st : State)
      → LampsShow hub lamps (k, st)
      → SentShows (key_down hub m when s c meta f (k, st))
  unfolding key_down
  key_down-LampsShow m when s c meta f k st h =
      let st1 = switch_profile hub c m st in
      let h1 = LampsShow-SameLamps hub lamps k st st1 (switch_profile-SameLamps c m st) h in
      elim (Option-cases (find_key_down s k.key_downs)) [
        | inl n ↦ rw (n, key_down) (new_key-LampsShow m when s _ meta f k st1 h1)
        | inr (old, d) ↦
            rw (d, key_down)
              (send-LampsShow m when true s old meta f (record k { down_time = when }) st1 h1)
      ]

  key_up-LampsShow :
      (m : KeyMouse) (when s : ℤ) (meta : ℕ) (f : Flags) (k : Keyboard) (st : State)
      → LampsShow hub lamps (k, st)
      → SentShows (key_up hub m when s meta f (k, st))
  unfolding key_up
  key_up-LampsShow m when s meta f k st h = elim (Option-cases (find_key_down s k.key_downs)) [
    | inl n ↦ rw (n, key_up) h
    | inr (old, d) ↦
        rw (d, key_up)
          (send-LampsShow m when false s old meta f (record k { key_downs = erase s k.key_downs })
            st h)
  ]

  called-LampsShow :
      (b : Bool) (when : ℤ) (k : Keyboard) (st : State)
      → LampsShow hub lamps (k, st)
      → LampsShow hub lamps (k, hub.set_id (if b then hub.cancel_touch when st else st))
  called-LampsShow b when k st =
      LampsShow-SameLamps hub lamps k st _
        (λ led. lamps.set_id led _ ∙ cancel-SameLamps b when st led)

  process_key-LampsShow :
      (when : ℤ) (down : Bool) (s usage : ℤ) (k : Keyboard) (st : State)
      → LampsShow hub lamps (k, st)
      → SentShows (process_key hub when down s usage (k, st))
  unfolding process_key
  process_key-LampsShow when true s usage k st h =
      let r = mapped hub s usage (k, st) in
      let st1 = if r.2.gesture then hub.cancel_touch when st else st in
      key_down-LampsShow (hub.key_mouse st1) when s r.0 r.1 r.2 k (hub.set_id st1)
        (called-LampsShow r.2.gesture when k st h)
  process_key-LampsShow when false s usage k st h =
      let r = mapped hub s usage (k, st) in
      let st1 = if r.2.gesture then hub.cancel_touch when st else st in
      key_up-LampsShow (hub.key_mouse st1) when s r.1 r.2 k (hub.set_id st1)
        (called-LampsShow r.2.gesture when k st h)

  on_event-LampsShow :
      (e : EventKind) (when v : ℤ) (k : Keyboard) (st : State)
      → LampsShow hub lamps (k, st)
      → SentShows (on_event hub e when v (k, st))
  unfolding on_event
  on_event-LampsShow (ev_key code) when v k st h =
      elim (Bool-cases (is_keyboard_or_gamepad_key hub (hub.scan_number code))) [
        | inl known ↦
            rw (known, on_event)
              (process_key-LampsShow when (to_bool v) (hub.scan_number code) k.current_hid_usage
                (record k { current_hid_usage = pos 0 }) st h)
        | inr other ↦ rw (other, on_event) h
      ]
  on_event-LampsShow _ when v k st h = h

  process_all-LampsShow :
      (es : List RawEvent) (k : Keyboard) (st : State)
      → LampsShow hub lamps (k, st)
      → LampsShow hub lamps (process_all hub es (k, st))
  unfolding process
  process_all-LampsShow [] k st h = h
  process_all-LampsShow (e ∷ es) k st h =
      let r = process hub e (k, st) in
      process_all-LampsShow es r.0 r.1 (on_event-LampsShow e.kind e.when e.value k st h)

  -- Where setLedState sets one lamp, and nothing else that the mapper calls touches the lamps: after
  -- a reset and any events, each of the three lamps that the device has is lit exactly when the meta
  -- state has its modifier, and the field `on` of the mapper agrees.
  pub process_all-reset :
      (es : List RawEvent) (ks : Keyboard × State)
      → LampsShow hub lamps (process_all hub es (reset hub ks))
  unfolding reset
  process_all-reset es (k, st) =
      let r = reset hub (k, st) in
      process_all-LampsShow es r.0 r.1 (
        update_led_state-LampsShow hub lamps true (cleared hub k st) st
          (λ f. absurd (ground arith)))
