-- ===== src/Reader/Loop.antt =====
-- InputReader of InputReader.cpp: the batches of events, the devices that come and go, and one turn
-- of the reader's loop. The lock is held throughout each part, and so is not modelled.
pub mod Batches
use osdi_artifact.Prelude.{
  ℕ, zero, suc, ◌+◌, ℤ, pos, negsuc, eq_ℤ, leb_ℤ, Bool, true, false, not, ◌||◌, ◌==◌, if◌then◌else◌,
  List, [], ◌∷◌, ◌++◌, Option, none, some, length,
}
use osdi_artifact.Input.Event.{
  EventKind, device_added, device_removed, finished_device_scan, RawEvent, is_synthetic,
}
use osdi_artifact.Reader.Devices.{Device, MapperKind, is_ignored, create_device, KeyedVector}
use osdi_artifact.Reader.Context.{
  Shared, NotifyArgs, Mappers, Change, must_reopen, external_stylus_presence, configuration_changed,
  bump_generation, update_global_meta_state, notify,
}
use osdi_artifact.Reader.Device.{
  Reader, set_dropping, reset_device, timeout_mappers, process_events_for_device,
}

abbrev is_must_reopen : Change → Bool
is_must_reopen must_reopen = true
is_must_reopen _ = false

abbrev has_must_reopen : List Change → Bool
has_must_reopen [] = false
has_must_reopen (c ∷ cs) = is_must_reopen c || has_must_reopen cs

-- The longest run of events of one device, and the rest.
unfoldable pub take_batch : ℤ → List RawEvent → List RawEvent × List RawEvent
take_batch id [] = ([], [])
take_batch id (e ∷ es) =
    if is_synthetic e.kind || not (eq_ℤ e.device_id id)
    then ([], e ∷ es)
    else (let (batch, rest) = take_batch id es in (e ∷ batch, rest))

module _ (ms : Mappers) where
  open ms use {State, Args, vector}

  configure_all :
      List Device → List Device → ℤ → List Change → Shared State Args → Shared State Args
  configure_all all [] t cs s = s
  configure_all all (d ∷ ds) t cs s = configure_all all ds t cs (ms.configure all d t cs s)

  unfoldable pub refresh_configuration : List Change → Reader State Args → Reader State Args
  unfolding configure_all
  refresh_configuration [] r = record r {
    shared = record r.shared { state = ms.load_configuration r.shared.state };
  }
  refresh_configuration (c ∷ cs) r =
      let s : Shared State Args = record r.shared {
        state = ms.load_configuration r.shared.state;
      } in
      if has_must_reopen (c ∷ cs)
      then record r { shared = record s { state = ms.request_reopen_devices s.state } }
      else record r {
        shared = configure_all r.devices r.devices (ms.system_time s.state) (c ∷ cs) s;
      }

  notify_stylus : Bool → Reader State Args → Reader State Args
  unfolding refresh_configuration
  notify_stylus true r = refresh_configuration (external_stylus_presence ∷ []) r
  notify_stylus false r = r

  -- The new device is configured and reset before it joins the others.
  unfoldable pub add_device : ℤ → ℤ → Reader State Args → Reader State Args
  unfolding notify_stylus create_device bump_generation reset_device
  add_device t id r = elim (vector.find id r.devices) [
    | some _ ↦ r
    | none ↦
        let s1 = bump_generation ms r.shared in
        let d = create_device id (ms.get_device_classes r.shared.state id) in
        let s0 : Shared State Args = record s1 {
          state = ms.create d.id s1.generation d.mappers s1.state;
        } in
        let s2 = ms.configure r.devices d t [] s0 in
        let s3 = reset_device ms r.devices d.id d.mappers t s2 in
        notify_stylus d.classes.external_stylus (record r {
          devices = vector.add id d r.devices;
          dropping = set_dropping id false r.dropping;
          shared = bump_generation ms s3;
        })
  ]

  unfoldable pub remove_device : ℤ → ℤ → Reader State Args → Reader State Args
  unfolding notify_stylus bump_generation reset_device
  remove_device t id r = elim (vector.find id r.devices) [
    | none ↦ r
    | some d ↦
        let r1 : Reader State Args = record r {
          devices = vector.remove id r.devices;
          shared = bump_generation ms r.shared;
        } in
        let r2 = notify_stylus d.classes.external_stylus r1 in
        let s = reset_device ms r2.devices d.id d.mappers t r2.shared in
        record r2 { shared = record s { state = ms.destroy d.id d.mappers s.state } }
  ]

  unfoldable pub handle_configuration_changed : ℤ → Reader State Args → Reader State Args
  unfolding update_global_meta_state notify
  handle_configuration_changed t r = record r {
    shared =
        notify ms (λ n. configuration_changed n t) (update_global_meta_state ms r.devices r.shared);
  }

  -- The switch over the synthetic events; other types cannot happen there.
  unfoldable pub process_synthetic : EventKind → RawEvent → Reader State Args → Reader State Args
  unfolding add_device remove_device handle_configuration_changed
  process_synthetic device_added e r = add_device e.when e.device_id r
  process_synthetic device_removed e r = remove_device e.when e.device_id r
  process_synthetic finished_device_scan e r = handle_configuration_changed e.when r
  process_synthetic _ e r = r

  -- The outer loop takes a batch at a time; each round takes one event at least.
  unfoldable pub process_batches : ℕ → List RawEvent → Reader State Args → Reader State Args
  unfolding process_synthetic process_events_for_device
  process_batches zero es r = r
  process_batches (suc n) [] r = r
  process_batches (suc n) (e ∷ es) r = elim (is_synthetic e.kind) [
    | true ↦ process_batches n es (process_synthetic e.kind e r)
    | false ↦
        let (batch, rest) = take_batch e.device_id es in
        process_batches n rest (process_events_for_device ms e.device_id (e ∷ batch) r)
  ]

  unfoldable pub process_events : List RawEvent → Reader State Args → Reader State Args
  unfolding process_batches
  process_events es r = process_batches (length es) es r

  timeout_all : List Device → List Device → ℤ → Shared State Args → Shared State Args
  unfolding timeout_mappers
  timeout_all all [] t s = s
  timeout_all all (d ∷ ds) t s =
      timeout_all all ds t (if is_ignored d then s else timeout_mappers ms all d.id d.mappers t s)

  unfoldable pub timeout_expired : ℤ → Reader State Args → Reader State Args
  unfolding timeout_all
  timeout_expired t r = record r { shared = timeout_all r.devices r.devices t r.shared }

  unfoldable pub request_refresh : List Change → Reader State Args → Reader State Args
  request_refresh [] r = record r {
    shared = record r.shared { state = ms.request_refresh_zizhan [] r.shared.state };
  }
  request_refresh (c ∷ cs) r =
      let woken : State = elim r.pending [ [] ↦ ms.wake r.shared.state | _ ∷ _ ↦ r.shared.state ] in
      record r {
        pending = r.pending ++ c ∷ cs;
        shared = record r.shared { state = ms.request_refresh_zizhan (c ∷ cs) woken };
      }

  -- The first part of loopOnce: the pending changes, or the time to the next timeout. A delay of -1
  -- waits for ever.
  unfoldable pub before_events : List Change → Reader State Args → ℤ × Reader State Args
  unfolding refresh_configuration
  before_events [] r = elim r.shared.next_timeout [
    | none ↦ (negsuc 0, r)
    | some t ↦ (ms.timeout_delay (ms.system_time r.shared.state) t, r)
  ]
  before_events (c ∷ cs) r = (pos 0, refresh_configuration (c ∷ cs) (record r { pending = [] }))

  -- The timeout is cleared before it is handled, so that a mapper can request another.
  unfoldable pub check_timeout : Reader State Args → Reader State Args
  unfolding timeout_expired
  check_timeout r = elim r.shared.next_timeout [
    | none ↦ r
    | some t ↦
        let now = ms.system_time r.shared.state in
        if leb_ℤ t now
        then timeout_expired now (record r { shared = record r.shared { next_timeout = none } })
        else r
  ]

  not_ignored : List Device → List Device
  not_ignored [] = []
  not_ignored (d ∷ ds) = if is_ignored d then not_ignored ds else d ∷ not_ignored ds

  -- One turn; the flushed notifications come out.
  unfoldable pub loop_once : Reader State Args → Reader State Args × List (NotifyArgs Args)
  unfolding before_events process_events check_timeout not_ignored
  loop_once r =
      let old_generation = r.shared.generation in
      let (delay, r1) = before_events r.pending r in
      let (events, st) = ms.get_events delay r1.shared.state in
      let r2 = process_events events (record r1 { shared = record r1.shared { state = st } }) in
      let r3 = check_timeout r2 in
      let st3 = ms.loop_zizhan r3.shared.state in
      let st4 =
        if old_generation == r3.shared.generation
        then st3
        else ms.notify_devices_changed (not_ignored r3.devices) st3 in
      (record r3 { shared = record r3.shared { state = st4; queue = [] } }, r3.shared.queue)
