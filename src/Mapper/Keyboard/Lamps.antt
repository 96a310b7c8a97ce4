-- ===== src/Mapper/Keyboard/Lamps.antt =====
-- KeyboardInputMapper of InputReader.cpp: the lamps of a keyboard show its meta state.
pub mod Events
use osdi_artifact.Prelude.{
  ℕ, ◌==◌, ℤ, pos, Bool, true, false, ◌&&◌, if◌then◌else◌, if-keeps, Option, List, [], ◌∷◌, ◌≡◌,
  refl, sym, ◌∙◌, not, arith, Bool-cases, Option-cases, inl, inr, to_bool,
}
use osdi_artifact.Input.Event.{EventKind, ev_key, RawEvent}
use osdi_artifact.Mapper.KeyCode.{KeyCode, profile_switch}
use osdi_artifact.Mapper.Keyboard.State.{
  caps_lock, num_lock, scroll_lock, LedState, Led, Keyboard, Flags, KeyMouse, KeyArgs, KeyHub,
  find_key_down, erase, on, off,
}
use osdi_artifact.Mapper.Keyboard.{
  caps_lock, update_led, update_led_state, update_meta_state_if_needed, send, switch_profile,
  new_key, key_down, key_up, mapped, process_key, on_event, process, push, cleared, reset,
  is_keyboard_or_gamepad_key,
}
use osdi_artifact.Mapper.Keyboard.Steps.{process_all}

abbrev pub same_led : Led → Led → Bool
same_led caps_lock caps_lock = true
same_led num_lock num_lock = true
same_led scroll_lock scroll_lock = true
same_led _ _ = false

-- The lamps of the device, as the event hub has them: setLedState sets one, and nothing else that the
-- mapper calls does.
pub record Lamps (hub : KeyHub) : Type 0 where
  pub is_lit : Led → hub.State → Bool
  pub set_led :
      (led other : Led) (b : Bool) (st : hub.State)
      → is_lit other (hub.set_led led b st) ≡ (if same_led led other then b else is_lit other st)
  pub cancel_touch :
      (led : Led) (when : ℤ) (st : hub.State)
      → is_lit led (hub.cancel_touch when st) ≡ is_lit led st
  pub set_key_mouse :
      (led : Led) (m : KeyMouse) (st : hub.State)
      → is_lit led (hub.set_key_mouse m st) ≡ is_lit led st
  pub set_id : (led : Led) (st : hub.State) → is_lit led (hub.set_id st) ≡ is_lit led st
  pub update_global_meta_state :
      (led : Led) (meta : ℕ) (st : hub.State)
      → is_lit led (hub.update_global_meta_state meta st) ≡ is_lit led st
  pub fade_pointer : (led : Led) (st : hub.State) → is_lit led (hub.fade_pointer st) ≡ is_lit led st
  pub next_sequence_num :
      (led : Led) (st : hub.State) → is_lit led (hub.next_sequence_num st).1 ≡ is_lit led st

same_led_refl : (led : Led) → same_led led led ≡ true
same_led_refl caps_lock = refl
same_led_refl num_lock = refl
same_led_refl scroll_lock = refl

module _ (hub : KeyHub) (lamps : Lamps hub) where
  open hub use {State}
  open lamps use {is_lit}

  -- A lamp that the device has is lit exactly when its modifier is on, and the mapper knows it.
  abbrev pub Shows : Led → ℕ → LedState → State → Type 0
  Shows led meta l st =
      l.avail ≡ true
      → (is_lit led st ≡ hub.has_modifier led meta) × (l.on ≡ hub.has_modifier led meta)

  abbrev pub LampsShow : Keyboard × State → Type 0
  LampsShow (k, st) =
      Shows caps_lock k.meta_state k.caps st
      × Shows num_lock k.meta_state k.num st
      × Shows scroll_lock k.meta_state k.scroll st

  -- The same lamps are lit.
  abbrev pub SameLamps : State → State → Type 0
  SameLamps st st' = (led : Led) → is_lit led st' ≡ is_lit led st

  Shows-SameLamps :
      (led : Led) (meta : ℕ) (l : LedState) (st st' : State)
      → SameLamps st st'
      → Shows led meta l st
      → Shows led meta l st'
  Shows-SameLamps led meta l st st' e h a = (e led ∙ (h a).0, (h a).1)

  pub LampsShow-SameLamps :
      (k : Keyboard) (st st' : State) → SameLamps st st' → LampsShow (k, st) → LampsShow (k, st')
  LampsShow-SameLamps k st st' e h = (
    Shows-SameLamps caps_lock k.meta_state k.caps st st' e h.0,
    Shows-SameLamps num_lock k.meta_state k.num st st' e h.1,
    Shows-SameLamps scroll_lock k.meta_state k.scroll st st' e h.2,
  )

  -- The mapper knows whether a lamp is lit.
  abbrev Knows : Led → LedState → State → Type 0
  Knows led l st = l.avail ≡ true → is_lit led st ≡ l.on

  update_led-Shows :
      (led : Led) (force : Bool) (meta : ℕ) (l : LedState) (st : State)
      → (force ≡ false → Knows led l st)
      → let r = update_led hub led force meta (l, st) in Shows led meta r.0 r.1
  unfolding update_led
  update_led-Shows led force meta l st h a =
      ground (arith, h, a, same_led_refl led, lamps.set_led led led (hub.has_modifier led meta) st)

  update_led-others :
      (led other : Led) (force : Bool) (meta : ℕ) (l : LedState) (st : State)
      → same_led led other ≡ false
      → is_lit other (update_led hub led force meta (l, st)).1 ≡ is_lit other st
  unfolding update_led
  update_led-others led other force meta l st h =
      ground (arith, lamps.set_led led other (hub.has_modifier led meta) st)

  pub update_led_state-LampsShow :
      (force : Bool) (k : Keyboard) (st : State)
      → (force ≡ false
          → Knows caps_lock k.caps st × Knows num_lock k.num st × Knows scroll_lock k.scroll st)
      → LampsShow (update_led_state hub force (k, st))
  unfolding update_led_state
  update_led_state-LampsShow force k st h =
      let caps = update_led hub caps_lock force k.meta_state (k.caps, st) in
      let num = update_led hub num_lock force k.meta_state (k.num, caps.1) in
      let scroll = update_led hub scroll_lock force k.meta_state (k.scroll, num.1) in
      let caps_keeps = λ (o : Led) (n : same_led caps_lock o ≡ false).
        update_led-others caps_lock o force k.meta_state k.caps st n in
      let num_keeps = λ (o : Led) (n : same_led num_lock o ≡ false).
        update_led-others num_lock o force k.meta_state k.num caps.1 n in
      let scroll_keeps = λ (o : Led) (n : same_led scroll_lock o ≡ false).
        update_led-others scroll_lock o force k.meta_state k.scroll num.1 n in
      let caps_shows = update_led-Shows caps_lock force k.meta_state k.caps st (λ f. (h f).0) in
      let num_shows =
        update_led-Shows num_lock force k.meta_state k.num caps.1
          (λ f a. caps_keeps num_lock refl ∙ (h f).1 a) in
      let scroll_shows =
        update_led-Shows scroll_lock force k.meta_state k.scroll num.1
          (λ f a. num_keeps scroll_lock refl ∙ (caps_keeps scroll_lock refl ∙ (h f).2 a)) in
      (
        λ a. (
          scroll_keeps caps_lock refl ∙ (num_keeps caps_lock refl ∙ (caps_shows a).0),
          (caps_shows a).1,
        ),
        λ a. (scroll_keeps num_lock refl ∙ (num_shows a).0, (num_shows a).1),
        scroll_shows,
      )

  Shows-Knows :
      (led : Led) (meta : ℕ) (l : LedState) (st : State) → Shows led meta l st → Knows led l st
  Shows-Knows led meta l st h a = (h a).0 ∙ sym (h a).1

  pub update_meta_state-LampsShow :
      (c : KeyCode) (down : Bool) (k : Keyboard) (st : State)
      → LampsShow (k, st)
      → let r = update_meta_state_if_needed hub c down (k, st) in LampsShow (r.1, r.2)
  unfolding update_meta_state_if_needed
  update_meta_state-LampsShow c down k st h =
      let new = hub.updated_meta_state c down k.meta_state in
      let u = update_led_state hub false (record k { meta_state = new }, st) in
      elim (Bool-cases (k.meta_state == new)) [
        | inl same ↦ rw same h
        | inr other ↦ rw other (
            LampsShow-SameLamps u.0 u.1 _ (λ led. lamps.update_global_meta_state led new u.1)
              (update_led_state-LampsShow false (record k { meta_state = new }) st
                (λ f. (
                  Shows-Knows caps_lock k.meta_state k.caps st h.0,
                  Shows-Knows num_lock k.meta_state k.num st h.1,
                  Shows-Knows scroll_lock k.meta_state k.scroll st h.2,
                ))))
      ]
