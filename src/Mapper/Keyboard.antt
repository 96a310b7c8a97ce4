-- ===== src/Mapper/Keyboard.antt =====
-- KeyboardInputMapper of InputReader.cpp: the keys that are down, the meta state and the lamps. The
-- event hub, the reader's context, the system properties, libinput's meta state and the constants
-- of linux/input.h are the record `KeyHub` of State.
pub mod State
pub mod Downs
pub mod Steps
pub mod Lamps
use osdi_artifact.Prelude.{
  ℕ, zero, suc, ◌+◌, ◌==◌, ℤ, pos, ltb_ℤ, leb_ℤ, eq_ℤ, to_bool, Bool, true, false, not, ◌&&◌, ◌||◌,
  if◌then◌else◌, List, [], ◌∷◌, ◌++◌, Option, none, some,
}
use osdi_artifact.Input.Event.{ScanCode, EventKind, ev_key, msc_scan, syn_report, RawEvent}
use osdi_artifact.Mapper.KeyCode.{
  KeyCode, same_key, stem_primary, stem_1, stem_2, stem_3, unknown, profile_switch, dpad_left,
  dpad_right, dpad_up, dpad_down, navigation_left, navigation_right, navigation_up, navigation_down,
  is_media_key, Orientation, rotation_0, StemRow, rotate_key_code,
}
use State.{
  on, caps_lock, num_lock, scroll_lock, off, LedState, Led, Keyboard, Flags, KeyMouse, KeyArgs,
  KeyHub, no_flags, get_orientation, find_key_down, erase, to_navigation,
}

module _ (hub : KeyHub) where
  open hub use {State}

  unfoldable pub is_keyboard_or_gamepad_key : ℤ → Bool
  is_keyboard_or_gamepad_key s =
      ltb_ℤ s hub.btn_mouse
      || leb_ℤ hub.key_ok s
      || (leb_ℤ hub.btn_misc s && ltb_ℤ s hub.btn_mouse)
      || (leb_ℤ hub.btn_joystick s && ltb_ℤ s hub.btn_digi)

  get_display_id : Keyboard → ℤ
  get_display_id k = elim k.viewport [ none ↦ hub.display_id_none | some v ↦ v.display_id ]

  -- updateLedStateForModifier.
  unfoldable pub update_led : Led → Bool → ℕ → LedState × State → LedState × State
  update_led led reset meta (l, st) =
      let desired = hub.has_modifier led meta in
      if l.avail && (reset || (if l.on then not desired else desired))
      then (record l { on = desired }, hub.set_led led desired st)
      else (l, st)

  unfoldable pub update_led_state : Bool → Keyboard × State → Keyboard × State
  unfolding update_led
  update_led_state reset (k, st) =
      let (caps, st1) = update_led caps_lock reset k.meta_state (k.caps, st) in
      let (num, st2) = update_led num_lock reset k.meta_state (k.num, st1) in
      let (scroll, st3) = update_led scroll_lock reset k.meta_state (k.scroll, st2) in
      (record k { caps = caps; num = num; scroll = scroll }, st3)

  abbrev pub lamp : Led → State → LedState
  lamp led st = record { avail = hub.has_led led st; on = false }

  -- The fields of `reset`, before the lamps are set.
  abbrev pub cleared : Keyboard → State → Keyboard
  cleared k st = record k {
    meta_state = 0;
    down_time = pos 0;
    key_downs = [];
    current_hid_usage = pos 0;
    caps = lamp caps_lock st;
    num = lamp num_lock st;
    scroll = lamp scroll_lock st;
  }

  unfoldable pub reset : Keyboard × State → Keyboard × State
  unfolding update_led_state
  reset (k, st) = update_led_state true (cleared k st, st)

  -- The result tells whether the meta state changed.
  unfoldable pub update_meta_state_if_needed :
      KeyCode → Bool → Keyboard × State → Bool × Keyboard × State
  unfolding update_led_state
  update_meta_state_if_needed c down (k, st) =
      let new = hub.updated_meta_state c down k.meta_state in
      if k.meta_state == new
      then (false, k, st)
      else (let (k1, st1) = update_led_state false (record k { meta_state = new }, st) in
          (true, k1, hub.update_global_meta_state new st1))

  -- What comes behind the bookkeeping of processKey: `mouse` is the state of the property as the
  -- call read it.
  unfoldable pub send :
      KeyMouse
      → ℤ
      → Bool
      → ℤ
      → KeyCode
      → ℕ
      → Flags
      → Keyboard × State
      → Keyboard × State × Option KeyArgs
  unfolding update_meta_state_if_needed to_navigation get_display_id
  send mouse when down s c meta flags (k, st) =
      let (changed, k1, st1) = update_meta_state_if_needed c down (k, st) in
      let f1 : Flags =
        if down && (hub.is_external && not (is_media_key c))
        then record flags { wake = true }
        else flags in
      let f2 : Flags =
        if k1.handles_key_repeat then record f1 { disable_key_repeat = true } else f1 in
      let st2 = if down && not (hub.is_meta_key c) then hub.fade_pointer st1 else st1 in
      let (n, st3) = hub.next_sequence_num st2 in
      (
        k1,
        st3,
        some (record {
          sequence_num = n;
          when = when;
          display_id = get_display_id k1;
          flags = f2;
          down = down;
          key_code = to_navigation mouse c;
          scan_code = s;
          meta_state = if changed then k1.meta_state else meta;
          down_time = k1.down_time;
        }),
      )

  -- The keyboard with one more key down.
  abbrev pub push : ℤ → ℤ → KeyCode → Keyboard → Keyboard
  push when s c k = record k {
    key_downs = k.key_downs ++ record { key_code = c; scan_code = s } ∷ [];
    down_time = when;
  }

  -- A key that was not down: dropped, or added to the keys that are.
  unfoldable pub new_key :
      KeyMouse → ℤ → ℤ → KeyCode → ℕ → Flags → Keyboard × State → Keyboard × State × Option KeyArgs
  unfolding send
  new_key mouse when s c meta flags (k, st) =
      if flags.virtual && hub.should_drop_virtual_key when c s st
      then (k, st, none)
      else send mouse when true s c meta flags
          (push when s c k, if flags.gesture then hub.cancel_touch when st else st)

  -- The switch of the mouse function by its key, on a box.
  unfoldable pub switch_profile : KeyCode → KeyMouse → State → State
  switch_profile profile_switch on st = if hub.is_box st then hub.set_key_mouse off st else st
  switch_profile profile_switch off st = if hub.is_box st then hub.set_key_mouse on st else st
  switch_profile _ _ st = st

  unfoldable pub key_down :
      KeyMouse → ℤ → ℤ → KeyCode → ℕ → Flags → Keyboard × State → Keyboard × State × Option KeyArgs
  unfolding new_key switch_profile
  key_down mouse when s c meta flags (k, st) =
      let st1 = switch_profile c mouse st in
      let c1 =
        if k.orientation_aware then rotate_key_code (hub.stems st1) c (get_orientation k) else c in
      elim (find_key_down s k.key_downs) [
        | some old ↦ send mouse when true s old meta flags (record k { down_time = when }, st1)
        | none ↦ new_key mouse when s c1 meta flags (k, st1)
      ]

  unfoldable pub key_up :
      KeyMouse → ℤ → ℤ → ℕ → Flags → Keyboard × State → Keyboard × State × Option KeyArgs
  unfolding send
  key_up mouse when s meta flags (k, st) = elim (find_key_down s k.key_downs) [
    | some old ↦
        send mouse when false s old meta flags (record k { key_downs = erase s k.key_downs }, st)
    | none ↦ (k, st, none)
  ]

  -- What mapKey gives, or the values for an unmapped key.
  mapped : ℤ → ℤ → Keyboard × State → KeyCode × ℕ × Flags
  mapped s usage (k, st) = elim (hub.map_key s usage k.meta_state st) [
    | some r ↦ r
    | none ↦ (unknown, k.meta_state, no_flags)
  ]

  unfoldable pub process_key :
      ℤ → Bool → ℤ → ℤ → Keyboard × State → Keyboard × State × Option KeyArgs
  unfolding key_down key_up mapped
  process_key when down s usage (k, st) =
      let (c, meta, flags) = mapped s usage (k, st) in
      let st1 = if flags.gesture then hub.cancel_touch when st else st in
      let mouse = hub.key_mouse st1 in
      let st2 = hub.set_id st1 in
      elim down [
        | true ↦ key_down mouse when s c meta flags (k, st2)
        | false ↦ key_up mouse when s meta flags (k, st2)
      ]

  on_event : EventKind → ℤ → ℤ → Keyboard × State → Keyboard × State × Option KeyArgs
  unfolding process_key
  on_event (ev_key code) when v (k, st) =
      let s = hub.scan_number code in
      let k1 : Keyboard = record k { current_hid_usage = pos 0 } in
      elim (is_keyboard_or_gamepad_key s) [
        | true ↦ process_key when (to_bool v) s k.current_hid_usage (k1, st)
        | false ↦ (k1, st, none)
      ]
  on_event msc_scan when v (k, st) = (record k { current_hid_usage = v }, st, none)
  on_event syn_report when v (k, st) = (record k { current_hid_usage = pos 0 }, st, none)
  on_event _ when v (k, st) = (k, st, none)

  unfoldable pub process : RawEvent → Keyboard × State → Keyboard × State × Option KeyArgs
  unfolding on_event
  process e ks = on_event e.kind e.when e.value ks
