-- ===== src/Reader/Device/Laws.antt =====
-- InputDevice::process of InputReader.cpp: recovery from a buffer overrun.
use osdi_artifact.Prelude.{
  ℤ, eq_ℤ_iff, Bool, true, false, not, List, [], ◌∷◌, ◌++◌, none, some, ◌≡◌, refl, ap, ap₂, ◌∙◌,
  fun_ext, arith,
}
use osdi_artifact.Input.Event.{EventKind, syn_report, syn_dropped, RawEvent}
use osdi_artifact.Reader.Devices.{Device}
use osdi_artifact.Reader.Context.{Mappers}
use osdi_artifact.Reader.Device.{
  Reader, set_dropping, reset_device, process_event, process_next, process_events_of,
}

module _ (ms : Mappers) where
  open ms use {State, Args, vector}

  pub process_next-none :
      (id : ℤ) (e : RawEvent) (r : Reader State Args)
      → vector.find id r.devices ≡ none
      → process_next ms id e r ≡ r
  unfolding process_next
  process_next-none id e r h = ground arith

  pub process_next-some :
      (id : ℤ) (e : RawEvent) (r : Reader State Args) (d : Device)
      → vector.find id r.devices ≡ some d
      → process_next ms id e r ≡ process_event ms (r.dropping id) e.kind id d e r
  unfolding process_next
  process_next-some id e r d h = rw (h, process_next)

abbrev pub is_report : EventKind → Bool
is_report syn_report = true
is_report _ = false

abbrev pub NoReport : List RawEvent → Type 0
NoReport [] = Unit {0}
NoReport (e ∷ es) = (is_report e.kind ≡ false) × NoReport es

set_dropping_back :
    (id : ℤ) (b : Bool) (f : ℤ → Bool)
    → f id ≡ b
    → set_dropping id b (set_dropping id (not b) f) ≡ f
set_dropping_back id b f h = fun_ext (λ j. ground (arith, eq_ℤ_iff id j, ap f {x = id} {y = j}))

module _ (ms : Mappers) where
  open ms use {State, Args, vector}

  process_event-dropping :
      (k : EventKind) (id : ℤ) (d : Device) (e : RawEvent) (r : Reader State Args)
      → is_report k ≡ false
      → process_event ms true k id d e r ≡ r
  unfolding process_event
  process_event-dropping k id d e r h = ground arith

  skip_dropped :
      (id : ℤ) (es rest : List RawEvent) (r : Reader State Args) (d : Device)
      → vector.find id r.devices ≡ some d
      → r.dropping id ≡ true
      → NoReport es
      → process_events_of ms id (es ++ rest) r ≡ process_events_of ms id rest r
  unfolding process_events_of
  skip_dropped id [] rest r d f h q = refl
  skip_dropped id (e ∷ es) rest r d f h (no_report, q) =
      ap (process_events_of ms id (es ++ rest)) step ∙ skip_dropped id es rest r d f h q
    where
      step : process_next ms id e r ≡ r
      step =
          process_next-some ms id e r d f
          ∙ (ap (λ b. process_event ms b e.kind id d e r) h
              ∙ process_event-dropping e.kind id d e r no_report)

  -- What SYN_DROPPED does: the device starts to drop, and is reset.
  abbrev after_lost : ℤ → Device → ℤ → Reader State Args → Reader State Args
  after_lost id d t r = record r {
    dropping = set_dropping id true r.dropping;
    shared = reset_device ms r.devices d.id d.mappers t r.shared;
  }

  lost_step :
      (id : ℤ) (lost : RawEvent) (r : Reader State Args) (d : Device)
      → vector.find id r.devices ≡ some d
      → r.dropping id ≡ false
      → lost.kind ≡ syn_dropped
      → process_next ms id lost r ≡ after_lost id d lost.when r
  unfolding process_event
  lost_step id lost r d f h k =
      process_next-some ms id lost r d f ∙ ap₂ (λ b e. process_event ms b e id d lost r) h k

  report_step :
      (id : ℤ) (report : RawEvent) (r : Reader State Args) (d : Device)
      → vector.find id r.devices ≡ some d
      → r.dropping id ≡ true
      → report.kind ≡ syn_report
      → process_next ms id report r ≡ record r { dropping = set_dropping id false r.dropping }
  unfolding process_event
  report_step id report r d f h k =
      process_next-some ms id report r d f ∙ ap₂ (λ b e. process_event ms b e id d report r) h k

  -- After a buffer overrun the device is reset once, at the time of the SYN_DROPPED event; what
  -- follows is lost up to the next SYN_REPORT and that event too, and from there on events count
  -- again.
  pub process_overrun :
      (id : ℤ) (lost report : RawEvent) (es rest : List RawEvent) (r : Reader State Args)
      (d : Device)
      → vector.find id r.devices ≡ some d
      → r.dropping id ≡ false
      → lost.kind ≡ syn_dropped
      → report.kind ≡ syn_report
      → NoReport es
      → process_events_of ms id (lost ∷ es ++ report ∷ rest) r
        ≡ process_events_of ms id rest
            (record r { shared = reset_device ms r.devices d.id d.mappers lost.when r.shared })
  unfolding process_events_of
  process_overrun id lost report es rest r d f h kl kr q =
      let r1 = after_lost id d lost.when r in
      let dropped : r1.dropping id ≡ true = ground (arith, eq_ℤ_iff id id) in
      ap (process_events_of ms id (es ++ report ∷ rest)) (lost_step id lost r d f h kl)
      ∙ (skip_dropped id es (report ∷ rest) r1 d f dropped q
          ∙ (ap (process_events_of ms id rest) (report_step id report r1 d f dropped kr)
              ∙ ap (λ g. process_events_of ms id rest (record r1 { dropping = g }))
                  (set_dropping_back id false r.dropping h)))
