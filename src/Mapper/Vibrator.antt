-- ===== src/Mapper/Vibrator.antt =====
-- VibratorInputMapper of InputReader.cpp. What it asks of the event hub and of the reader's context
-- comes out as a list of commands, and the time of the system goes in; the array of the pattern is a
-- function of its index.
pub mod Steps
use osdi_artifact.Prelude.{
  ℕ, ◌%◌, ◌==◌, ℤ, pos, negsuc, ◌+ℤ◌, eq_ℤ, leb_ℤ, Bool, true, false, ◌&&◌, if◌then◌else◌, ltb,
  List, [], ◌∷◌, Option, none, some,
}

pub record Vibrator : Type 0 where
  pub vibrating : Bool
  pub pattern : ℕ → ℤ
  pub pattern_size : ℕ
  pub repeat : ℤ
  pub token : ℤ
  pub index : ℤ
  pub next_step_time : ℤ

pub data Command : Type 0 where
  vibrate_for : ℤ → Command
  cancel : Command
  request_timeout : ℤ → Command

unfoldable pub stop_vibrating : Vibrator → Vibrator × List Command
stop_vibrating v = (record v { vibrating = false }, cancel ∷ [])

-- Where the pattern goes on when it is over; `none` is the end.
abbrev pub repeat_at : ℤ → Option ℕ
repeat_at (pos r) = some r
repeat_at (negsuc n) = none

-- The index of the next step. A negative one is a large size_t.
abbrev pub target : ℤ → ℕ → ℤ → Option ℕ
target (pos i) size repeat = if ltb i size then some i else repeat_at repeat
target (negsuc n) size repeat = repeat_at repeat

-- The odd steps vibrate.
abbrev pub command_at : ℕ → ℤ → Command
command_at i duration = if i % 2 == 1 then vibrate_for duration else cancel

unfoldable pub play : ℤ → ℕ → Vibrator → Vibrator × List Command
unfolding ◌+ℤ◌
play now i v =
    let t = now +ℤ v.pattern i in
    (
      record v { index = pos i; next_step_time = t },
      command_at i (v.pattern i) ∷ request_timeout t ∷ [],
    )

unfoldable pub next_step : ℤ → Vibrator → Vibrator × List Command
unfolding ◌+ℤ◌ play stop_vibrating
next_step now v = elim (target (v.index +ℤ pos 1) v.pattern_size v.repeat) [
  | none ↦ stop_vibrating (record v { index = v.index +ℤ pos 1 })
  | some i ↦ play now i v
]

-- The fields that a new pattern sets.
abbrev pub armed : (ℕ → ℤ) → ℕ → ℤ → ℤ → Vibrator → Vibrator
armed pattern size repeat token v = record v {
  vibrating = true;
  pattern = pattern;
  pattern_size = size;
  repeat = repeat;
  token = token;
  index = negsuc 0;
}

unfoldable pub vibrate : (ℕ → ℤ) → ℕ → ℤ → ℤ → ℤ → Vibrator → Vibrator × List Command
unfolding next_step
vibrate pattern size repeat token now v = next_step now (armed pattern size repeat token v)

unfoldable pub cancel_vibrate : ℤ → Vibrator → Vibrator × List Command
unfolding stop_vibrating
cancel_vibrate token v = if v.vibrating && eq_ℤ v.token token then stop_vibrating v else (v, [])

-- `when` is the time of the timeout, `now` that of the system.
unfoldable pub timeout_expired : ℤ → ℤ → Vibrator → Vibrator × List Command
unfolding next_step
timeout_expired when now v =
    if v.vibrating
    then (if leb_ℤ v.next_step_time when
        then next_step now v
        else (v, request_timeout v.next_step_time ∷ []))
    else (v, [])
