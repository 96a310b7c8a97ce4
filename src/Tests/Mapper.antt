-- ===== src/Tests/Mapper.antt =====
-- Runs of a vibrator and of a switch.
use osdi_artifact.Prelude.{
  ℕ, ◌<◌, ◌==◌, ℤ, pos, negsuc, true, false, if◌then◌else◌, List, [], ◌∷◌, ◌++◌, ◌≡◌, refl, arith,
}
use osdi_artifact.Mapper.Vibrator.{Vibrator, cancel, vibrate, timeout_expired}
use osdi_artifact.Mapper.Vibrator.Steps.{expire_all, alternating, vibrate-score, vibrate-round}
use osdi_artifact.Mapper.Switch.{Switch, sync}
use osdi_artifact.Mapper.Switch.Packet.{Move, switch_all, told, sync-switch_all}

abbrev idle : Vibrator
idle = record {
  vibrating = false;
  pattern = λ i. pos 0;
  pattern_size = 0;
  repeat = negsuc 0;
  token = pos 0;
  index = negsuc 0;
  next_step_time = pos 0;
}

abbrev pattern : ℕ → ℤ
pattern i = if i == 1 then pos 30 else pos 10

vibrate-score_example :
    let r = vibrate pattern 2 (negsuc 0) (pos 7) (pos 100) idle in
    let s = expire_all (pos 110 ∷ []) r.0 in
    let e = timeout_expired s.0.next_step_time (pos 140) s.0 in
    (r.1 ++ s.1 ≡ alternating false pattern 0 (pos 100 ∷ pos 110 ∷ []))
    × (e.1 ≡ cancel ∷ [])
    × (e.0.vibrating ≡ false)
vibrate-score_example =
    vibrate-score pattern 1 (negsuc 0) (pos 7) (pos 100) (pos 140) (pos 110 ∷ []) idle refl refl

vibrate-round_example :
    let w =
      (expire_all
        (pos 110 ∷ pos 140 ∷ pos 150 ∷ [])
        (vibrate pattern 2 (pos 1) (pos 7) (pos 100) idle).0).0 in
    (w.vibrating ≡ true) × ((i : ℕ) × (i < 2) × (w.index ≡ pos i))
vibrate-round_example =
    vibrate-round pattern 1 1 (pos 7) (pos 100) (pos 110 ∷ pos 140 ∷ pos 150 ∷ []) idle
      (omega arith)

abbrev closed : Switch
closed = record { values = λ i. i == 3; updated = λ i. false }

abbrev moves : List Move
moves =
    record { code = pos 0; value = pos 1 }
    ∷ record { code = pos 3; value = pos 1 }
    ∷ record { code = pos 3; value = pos 0 }
    ∷ []

sync-switch_all_example :
    let r = sync (pos 9) (switch_all moves closed, 5) in
    (told 3 r.2 ≡ (true, false)) × (r.0.updated 3 ≡ false)
sync-switch_all_example = sync-switch_all moves closed (pos 9) 5 3 (λ i. refl) (omega arith)
