-- ===== src/Mapper/Switch/Packet.antt =====
-- A packet of switch events is sent as one notification.
use osdi_artifact.Prelude.{
  ℕ, zero, suc, ◌<◌, ℤ, pos, negsuc, eq_ℤ, to_bool, Bool, false, ◌&&◌, ◌||◌, if◌then◌else◌, List,
  [], ◌∷◌, Option, none, some, ◌≡◌, refl, ap, ◌∙◌, arith, Bool-cases, inl, inr,
}
use osdi_artifact.Mapper.Switch.{Switch, SwitchArgs, is_nonzero, process_switch, sync}

-- A switch that moved: its code and its value.
pub record Move : Type 0 where
  pub code : ℤ
  pub value : ℤ

abbrev pub switch_all : List Move → Switch → Switch
switch_all [] s = s
switch_all (m ∷ ms) s = switch_all ms (process_switch m.code m.value s)

-- Whether a switch moved, and its last value.
abbrev pub moved : ℕ → List Move → Bool
moved n [] = false
moved n (m ∷ ms) = eq_ℤ m.code (pos n) || moved n ms

abbrev pub last_value : ℕ → List Move → Bool → Bool
last_value n [] old = old
last_value n (m ∷ ms) old = last_value n ms (if eq_ℤ m.code (pos n) then to_bool m.value else old)

updated-process_switch :
    (n : ℕ) (c v : ℤ) (s : Switch)
    → n < 32
    → (process_switch c v s).updated n ≡ (eq_ℤ c (pos n) || s.updated n)
unfolding process_switch
updated-process_switch n (pos k) v s h = ground arith
updated-process_switch n (negsuc k) v s h = ground arith

values-process_switch :
    (n : ℕ) (c v : ℤ) (s : Switch)
    → n < 32
    → (process_switch c v s).values n ≡ (if eq_ℤ c (pos n) then to_bool v else s.values n)
unfolding process_switch
values-process_switch n (pos k) v s h = ground arith
values-process_switch n (negsuc k) v s h = ground arith

updated-switch_all :
    (n : ℕ) (ms : List Move) (s : Switch)
    → n < 32
    → (switch_all ms s).updated n ≡ (moved n ms || s.updated n)
updated-switch_all n [] s h = refl
updated-switch_all n (m ∷ ms) s h = ground (
  arith,
  updated-switch_all n ms (process_switch m.code m.value s) h,
  updated-process_switch n m.code m.value s h,
)

values-switch_all :
    (n : ℕ) (ms : List Move) (s : Switch)
    → n < 32
    → (switch_all ms s).values n ≡ last_value n ms (s.values n)
values-switch_all n [] s h = refl
values-switch_all n (m ∷ ms) s h =
    values-switch_all n ms (process_switch m.code m.value s) h
    ∙ ap (last_value n ms) (values-process_switch n m.code m.value s h)

zero_word : (k n : ℕ) (w : ℕ → Bool) → is_nonzero k w ≡ false → n < k → w n ≡ false
zero_word zero n w h lt = absurd (omega (arith, lt))
zero_word (suc k) n w h lt = ground (arith, zero_word k n w)

-- What a notification says of a switch: whether it moved, and its value.
abbrev pub told : ℕ → Option SwitchArgs → Bool × Bool
told n none = (false, false)
told n (some a) = (a.mask n, a.values n)

-- Of a packet the SYN_REPORT tells every switch that moved, with its last value, and no other; then
-- nothing is left to tell.
pub sync-switch_all :
    (ms : List Move) (s : Switch) (when : ℤ) (k n : ℕ)
    → ((i : ℕ) → s.updated i ≡ false)
    → n < 32
    → let r = sync when (switch_all ms s, k) in
      (told n r.2 ≡ (moved n ms, last_value n ms (s.values n) && moved n ms))
      × (r.0.updated n ≡ false)
unfolding sync
sync-switch_all ms s when k n fresh lt =
    let u = updated-switch_all n ms s lt in
    let v = values-switch_all n ms s lt in
    elim (Bool-cases (is_nonzero 32 (switch_all ms s).updated)) [
      | inl some_bit ↦ rw (some_bit, sync) (ground (arith, u, v, fresh n), refl)
      | inr no_bit ↦
          let z = zero_word 32 n (switch_all ms s).updated no_bit lt in
          rw (no_bit, sync) (ground (arith, u, z, fresh n), z)
    ]
