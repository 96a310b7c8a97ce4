-- ===== src/Mapper/Switch.antt =====
-- SwitchInputMapper of InputReader.cpp. A 32-bit word is a function from the number of a bit to the
-- bit; the counter of the sequence numbers goes through.
pub mod Packet
use osdi_artifact.Prelude.{
  ℕ, zero, suc, ◌+◌, ℤ, pos, negsuc, to_bool, Bool, true, false, ◌&&◌, ◌||◌, if◌then◌else◌, ltb,
  Option, none, some, update,
}
use osdi_artifact.Input.Event.{EventKind, ev_sw, syn_report, RawEvent}

pub record Switch : Type 0 where
  pub values : ℕ → Bool
  pub updated : ℕ → Bool

-- NotifySwitchArgs.
pub record SwitchArgs : Type 0 where
  pub sequence_num : ℕ
  pub when : ℤ
  pub values : ℕ → Bool
  pub mask : ℕ → Bool

-- Whether a word of `n` bits is not zero.
abbrev pub is_nonzero : ℕ → (ℕ → Bool) → Bool
is_nonzero zero w = false
is_nonzero (suc n) w = w n || is_nonzero n w

unfoldable pub process_switch : ℤ → ℤ → Switch → Switch
process_switch (pos n) v s =
    if ltb n 32
    then (record s { values = update s.values n (to_bool v); updated = update s.updated n true })
    else s
process_switch (negsuc n) v s = s

unfoldable pub sync : ℤ → Switch × ℕ → Switch × ℕ × Option SwitchArgs
sync when (s, n) = elim (is_nonzero 32 s.updated) [
  | true ↦ (
    record s { updated = λ i. false },
    n + 1,
    some (record {
      sequence_num = n;
      when = when;
      values = λ i. s.values i && s.updated i;
      mask = s.updated;
    }),
  )
  | false ↦ (s, n, none)
]

on_event : EventKind → ℤ → ℤ → Switch × ℕ → Switch × ℕ × Option SwitchArgs
unfolding process_switch sync
on_event (ev_sw code) when v (s, n) = (process_switch code v s, n, none)
on_event syn_report when v (s, n) = sync when (s, n)
on_event _ when v (s, n) = (s, n, none)

unfoldable pub process : RawEvent → Switch × ℕ → Switch × ℕ × Option SwitchArgs
unfolding on_event
process e s = on_event e.kind e.when e.value s
