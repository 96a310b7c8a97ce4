-- ===== src/Mapper/Keyboard/Downs.antt =====
-- The keys that KeyboardInputMapper takes to be down.
use osdi_artifact.Prelude.{
  ℕ, ℤ, eq_ℤ, eq_ℤ_iff, Bool, true, false, not, ◌&&◌, if◌then◌else◌, List, [], ◌∷◌, ◌++◌, none,
  some, ◌≡◌, refl, arith,
}
use osdi_artifact.Mapper.KeyCode.{KeyCode}
use osdi_artifact.Mapper.Keyboard.State.{
  KeyDown, Keyboard, Flags, KeyMouse, KeyHub, find_key_down, erase,
}
use osdi_artifact.Mapper.Keyboard.{update_led_state, update_meta_state_if_needed, send}

abbrev pub is_absent : ℤ → List KeyDown → Bool
is_absent s [] = true
is_absent s (d ∷ ds) = not (eq_ℤ d.scan_code s) && is_absent s ds

-- No scan code is down twice.
abbrev pub IsDistinct : List KeyDown → Type 0
IsDistinct [] = Unit {0}
IsDistinct (d ∷ ds) = (is_absent d.scan_code ds ≡ true) × IsDistinct ds

pub is_absent-find : (s : ℤ) (ds : List KeyDown) → find_key_down s ds ≡ none → is_absent s ds ≡ true
unfolding find_key_down
is_absent-find s [] h = refl
is_absent-find s (d ∷ ds) h = ground (arith, is_absent-find s ds)

find-is_absent : (s : ℤ) (ds : List KeyDown) → is_absent s ds ≡ true → find_key_down s ds ≡ none
unfolding find_key_down
find-is_absent s [] h = refl
find-is_absent s (d ∷ ds) h = ground (arith, find-is_absent s ds)

is_absent-erase :
    (t s : ℤ) (ds : List KeyDown) → is_absent t ds ≡ true → is_absent t (erase s ds) ≡ true
unfolding erase
is_absent-erase t s [] h = refl
is_absent-erase t s (d ∷ ds) h = ground (arith, is_absent-erase t s ds)

pub erase-IsDistinct : (s : ℤ) (ds : List KeyDown) → IsDistinct ds → IsDistinct (erase s ds)
unfolding erase
erase-IsDistinct s [] h = tt
erase-IsDistinct s (d ∷ ds) h =
    ground (arith, erase-IsDistinct s ds, is_absent-erase d.scan_code s ds)

is_absent-append :
    (s : ℤ) (d : KeyDown) (ds : List KeyDown)
    → is_absent s ds ≡ true
    → eq_ℤ d.scan_code s ≡ false
    → is_absent s (ds ++ d ∷ []) ≡ true
is_absent-append s d [] h n = ground arith
is_absent-append s d (x ∷ ds) h n = ground (arith, is_absent-append s d ds)

pub append-IsDistinct :
    (d : KeyDown) (ds : List KeyDown)
    → is_absent d.scan_code ds ≡ true
    → IsDistinct ds
    → IsDistinct (ds ++ d ∷ [])
append-IsDistinct d [] a h = (refl, tt)
append-IsDistinct d (x ∷ ds) a h = ground (
  arith,
  append-IsDistinct d ds,
  is_absent-append x.scan_code d ds,
  eq_ℤ_iff d.scan_code x.scan_code,
  eq_ℤ_iff x.scan_code d.scan_code,
)

-- After an erase the key is up, and the others are as they were.
pub find_key_down-erase :
    (s t : ℤ) (ds : List KeyDown)
    → IsDistinct ds
    → find_key_down t (erase s ds) ≡ (if eq_ℤ s t then none else find_key_down t ds)
unfolding find_key_down erase
find_key_down-erase s t [] h = ground arith
find_key_down-erase s t (d ∷ ds) h = ground (
  arith,
  find_key_down-erase s t ds,
  find-is_absent d.scan_code ds,
  eq_ℤ_iff d.scan_code s,
  eq_ℤ_iff d.scan_code t,
  eq_ℤ_iff s t,
)

pub find_key_down-append :
    (t : ℤ) (d : KeyDown) (ds : List KeyDown) (c : KeyCode)
    → find_key_down t ds ≡ some c
    → find_key_down t (ds ++ d ∷ []) ≡ some c
unfolding find_key_down
find_key_down-append t d [] c h = cc
find_key_down-append t d (x ∷ ds) c h = ground (arith, find_key_down-append t d ds c)

module _ (hub : KeyHub) where
  open hub use {State}

  key_downs-update_led_state :
      (reset : Bool) (ks : Keyboard × State)
      → (update_led_state hub reset ks).0.key_downs ≡ ks.0.key_downs
  unfolding update_led_state
  key_downs-update_led_state reset (k, st) = refl

  key_downs-update_meta_state :
      (c : KeyCode) (down : Bool) (ks : Keyboard × State)
      → (update_meta_state_if_needed hub c down ks).1.key_downs ≡ ks.0.key_downs
  unfolding update_meta_state_if_needed update_led_state
  key_downs-update_meta_state c down (k, st) = ground arith

  -- What is sent last keeps the keys, and sends the key code that it was given.
  pub key_downs-send :
      (m : KeyMouse) (when : ℤ) (down : Bool) (s : ℤ) (c : KeyCode) (meta : ℕ) (f : Flags)
      (ks : Keyboard × State)
      → (send hub m when down s c meta f ks).0.key_downs ≡ ks.0.key_downs
  unfolding send
  key_downs-send m when down s c meta f (k, st) = key_downs-update_meta_state c down (k, st)
