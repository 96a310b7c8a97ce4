-- ===== src/Mapper/Keyboard/Steps.antt =====
-- KeyboardInputMapper of InputReader.cpp: what an event does to the keys that are down.
pub mod Ups
use osdi_artifact.Prelude.{
  ℕ, ℤ, pos, eq_ℤ, eq_ℤ_iff, to_bool, Bool, true, false, ◌&&◌, if◌then◌else◌, List, [], ◌∷◌, ◌++◌,
  Option, none, some, ◌≡◌, refl, sym, ap, ◌∙◌, subst, arith, Bool-cases, Option-cases, inl, inr,
}
use osdi_artifact.Input.Event.{ScanCode, EventKind, ev_key, RawEvent}
use osdi_artifact.Mapper.KeyCode.{
  KeyCode, same_key, dpad_left, dpad_right, dpad_up, dpad_down, navigation_left, navigation_right,
  navigation_up, navigation_down, other_key_code,
}
use osdi_artifact.Mapper.Keyboard.State.{
  on, off, other_state, KeyDown, Keyboard, Flags, KeyMouse, KeyArgs, KeyHub, find_key_down, erase,
  to_navigation,
}
use osdi_artifact.Mapper.Keyboard.{
  send, new_key, key_down, key_up, mapped, process_key, on_event, process,
  is_keyboard_or_gamepad_key,
}
use osdi_artifact.Mapper.Keyboard.Downs.{
  IsDistinct, key_downs-send, find_key_down-erase, find_key_down-append, erase-IsDistinct,
  append-IsDistinct, is_absent-find,
}

-- What an event can do to the keys that are down: nothing, a key goes down that was not, or the key
-- that the label names goes up.
pub data Step : Option ℤ → List KeyDown → List KeyDown → Type 0 where
  stay : {r : Option ℤ} {ds : List KeyDown} → Step r ds ds
  press :
      {r : Option ℤ} {ds : List KeyDown} (d : KeyDown)
      → find_key_down d.scan_code ds ≡ none
      → Step r ds (ds ++ d ∷ [])
  release : {ds : List KeyDown} (s : ℤ) → Step (some s) ds (erase s ds)

Step-IsDistinct :
    {r : Option ℤ} {ds es : List KeyDown} → Step r ds es → IsDistinct ds → IsDistinct es
Step-IsDistinct stay h = h
Step-IsDistinct {ds = ds} (press d n) h = append-IsDistinct d ds (is_absent-find d.scan_code ds n) h
Step-IsDistinct {ds = ds} (release s) h = erase-IsDistinct s ds h

-- Whether a label names a scan code.
abbrev pub names : ℤ → Option ℤ → Bool
names t none = false
names t (some s) = eq_ℤ s t

Step-find :
    {r : Option ℤ} {ds es : List KeyDown} (t : ℤ) (c : KeyCode)
    → Step r ds es
    → IsDistinct ds
    → names t r ≡ false
    → find_key_down t ds ≡ some c
    → find_key_down t es ≡ some c
Step-find t c stay h n f = f
Step-find {ds = ds} t c (press d a) h n f = find_key_down-append t d ds c f
Step-find {ds = ds} t c (release s) h n f = ground (arith, find_key_down-erase s t ds h)

module _ (hub : KeyHub) where
  open hub use {State}

  new_key-Step :
      (r : Option ℤ) (m : KeyMouse) (when s : ℤ) (c : KeyCode) (meta : ℕ) (f : Flags)
      (ks : Keyboard × State)
      → find_key_down s ks.0.key_downs ≡ none
      → Step r ks.0.key_downs (new_key hub m when s c meta f ks).0.key_downs
  unfolding new_key
  new_key-Step r m when s c meta f (k, st) n =
      elim (Bool-cases (f.virtual && hub.should_drop_virtual_key when c s st)) [
        | inl drop ↦ rw drop stay
        | inr keep ↦ rw keep (
            subst (Step r k.key_downs) (sym (key_downs-send hub m when true s c meta f _))
              (press (record { key_code = c; scan_code = s }) n))
      ]

  key_down-Step :
      (r : Option ℤ) (m : KeyMouse) (when s : ℤ) (c : KeyCode) (meta : ℕ) (f : Flags)
      (ks : Keyboard × State)
      → Step r ks.0.key_downs (key_down hub m when s c meta f ks).0.key_downs
  unfolding key_down
  key_down-Step r m when s c meta f (k, st) = elim (Option-cases (find_key_down s k.key_downs)) [
    | inl n ↦ rw (n, key_down) (new_key-Step r m when s _ meta f (k, _) n)
    | inr (old, h) ↦
        rw (h, key_down)
          (subst (Step r k.key_downs) (sym (key_downs-send hub m when true s old meta f _)) stay)
  ]

  key_up-Step :
      (m : KeyMouse) (when s : ℤ) (meta : ℕ) (f : Flags) (ks : Keyboard × State)
      → Step (some s) ks.0.key_downs (key_up hub m when s meta f ks).0.key_downs
  unfolding key_up
  key_up-Step m when s meta f (k, st) = elim (Option-cases (find_key_down s k.key_downs)) [
    | inl n ↦ rw (n, key_up) stay
    | inr (old, h) ↦
        rw (h, key_up)
          (subst (Step (some s) k.key_downs) (sym (key_downs-send hub m when false s old meta f _))
            (release s))
  ]

  -- The scan code that an event releases.
  abbrev pub released : EventKind → ℤ → Option ℤ
  released (ev_key code) v = if to_bool v then none else some (hub.scan_number code)
  released _ v = none

  process_key-Step :
      (when : ℤ) (down : Bool) (s usage : ℤ) (ks : Keyboard × State)
      → Step
          (if down then none else some s)
          ks.0.key_downs
          (process_key hub when down s usage ks).0.key_downs
  unfolding process_key
  process_key-Step when true s usage (k, st) =
      let r = mapped hub s usage (k, st) in
      let st1 = if r.2.gesture then hub.cancel_touch when st else st in
      key_down-Step none (hub.key_mouse st1) when s r.0 r.1 r.2 (k, hub.set_id st1)
  process_key-Step when false s usage (k, st) =
      let r = mapped hub s usage (k, st) in
      let st1 = if r.2.gesture then hub.cancel_touch when st else st in
      key_up-Step (hub.key_mouse st1) when s r.1 r.2 (k, hub.set_id st1)

  on_event-Step :
      (e : EventKind) (when v : ℤ) (ks : Keyboard × State)
      → Step (released e v) ks.0.key_downs (on_event hub e when v ks).0.key_downs
  unfolding on_event
  on_event-Step (ev_key code) when v (k, st) =
      elim (Bool-cases (is_keyboard_or_gamepad_key hub (hub.scan_number code))) [
        | inl known ↦ rw (known, on_event) (process_key-Step when (to_bool v) _ _ (_, st))
        | inr other ↦ rw (other, on_event) stay
      ]
  on_event-Step _ when v (k, st) = stay

  process-Step :
      (e : RawEvent) (ks : Keyboard × State)
      → Step (released e.kind e.value) ks.0.key_downs (process hub e ks).0.key_downs
  unfolding process
  process-Step e ks = on_event-Step e.kind e.when e.value ks

  abbrev pub process_all : List RawEvent → Keyboard × State → Keyboard × State
  process_all [] ks = ks
  process_all (e ∷ es) ks = let r = process hub e ks in process_all es (r.0, r.1)

  -- Whatever events come, no scan code is ever down twice.
  pub process_all-IsDistinct :
      (es : List RawEvent) (ks : Keyboard × State)
      → IsDistinct ks.0.key_downs
      → IsDistinct (process_all es ks).0.key_downs
  process_all-IsDistinct [] ks h = h
  process_all-IsDistinct (e ∷ es) ks h =
      process_all-IsDistinct es _ (Step-IsDistinct (process-Step e ks) h)

  -- None of the events releases the scan code.
  abbrev pub NoRelease : ℤ → List RawEvent → Type 0
  NoRelease s [] = Unit {0}
  NoRelease s (e ∷ es) = (names s (released e.kind e.value) ≡ false) × NoRelease s es

  pub stays_down :
      (es : List RawEvent) (ks : Keyboard × State) (s : ℤ) (c : KeyCode)
      → IsDistinct ks.0.key_downs
      → NoRelease s es
      → find_key_down s ks.0.key_downs ≡ some c
      → find_key_down s (process_all es ks).0.key_downs ≡ some c
  stays_down [] ks s c h n f = f
  stays_down (e ∷ es) ks s c h n f =
      stays_down es _ s c (Step-IsDistinct (process-Step e ks) h) n.1
        (Step-find s c (process-Step e ks) h n.0 f)
