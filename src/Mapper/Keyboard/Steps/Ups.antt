-- ===== src/Mapper/Keyboard/Steps/Ups.antt =====
-- KeyboardInputMapper of InputReader.cpp: a key that goes up is sent with the key code with which it
-- went down, which the mouse function can rewrite.
use osdi_artifact.Prelude.{ℤ, Bool, false, if◌then◌else◌, List, [], ◌∷◌, Option, none, some, ◌≡◌}
use osdi_artifact.Mapper.KeyCode.{
  KeyCode, same_key, dpad_left, dpad_right, dpad_up, dpad_down, navigation_left, navigation_right,
  navigation_up, navigation_down,
}
use osdi_artifact.Mapper.Keyboard.State.{on, Keyboard, KeyMouse, KeyArgs, KeyHub, find_key_down}

-- The arrows and the navigation keys.
abbrev pub directions : List (KeyCode × KeyCode)
directions =
    (dpad_left, navigation_left)
    ∷ (dpad_right, navigation_right)
    ∷ (dpad_up, navigation_up)
    ∷ (dpad_down, navigation_down)
    ∷ []

abbrev pub directed : KeyCode → List (KeyCode × KeyCode) → KeyCode
directed c [] = c
directed c ((arrow, navigation) ∷ ds) = if same_key arrow c then navigation else directed c ds

-- A key code while the mouse function is in a state.
abbrev pub as_played : KeyMouse → KeyCode → KeyCode
as_played on c = directed c directions
as_played _ c = c

module _ (hub : KeyHub) where
  open hub use {State}

  -- The key that an event sends: its code, and whether it goes down.
  abbrev pub sent : Option KeyArgs → Option (KeyCode × Bool)
  sent o = elim o [ none ↦ none | some a ↦ some (a.key_code, a.down) ]

  -- The event `r` sends the key code of the key `s`, as the state `m` of the mouse function has it.
  abbrev pub GoesUp : ℤ → KeyCode → KeyMouse → Keyboard × State × Option KeyArgs → Type 0
  GoesUp s c m r = (sent r.2 ≡ some (as_played m c, false)) × (find_key_down s r.0.key_downs ≡ none)

  -- To cancel a touch leaves the property of the mouse function.
  abbrev pub KeepsMouse : Type 0
  KeepsMouse = (when : ℤ) (st : State) → hub.key_mouse (hub.cancel_touch when st) ≡ hub.key_mouse st
