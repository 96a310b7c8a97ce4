-- ===== src/Reader/Device.antt =====
-- InputDevice of InputReader.cpp, over the reader that holds it.
pub mod Laws
use osdi_artifact.Prelude.{
  ℤ, eq_ℤ, Bool, true, false, if◌then◌else◌, List, [], ◌∷◌, Option, none, some,
}
use osdi_artifact.Input.Event.{EventKind, syn_report, syn_dropped, RawEvent}
use osdi_artifact.Reader.Devices.{Device, MapperKind, is_ignored, KeyedVector}
use osdi_artifact.Reader.Context.{
  Shared, Mappers, Change, device_reset, update_global_meta_state, notify,
}

pub record Reader (State Args : Type 0) : Type 0 where
  pub devices : List Device
  -- mDropUntilNextSync of the device object that mDevices holds for an id.
  pub dropping : ℤ → Bool
  pub shared : Shared State Args
  pub pending : List Change  -- mConfigurationChangesToRefresh

-- A device object is changed in place.
abbrev pub set_dropping : ℤ → Bool → (ℤ → Bool) → ℤ → Bool
set_dropping id b f j = if eq_ℤ id j then b else f j

module _ (ms : Mappers) where
  open ms use {State, Args, vector}

  -- The loops over `mMappers`; each mapper sees what the one before it left.
  unfoldable pub reset_mappers :
      List Device → ℤ → List MapperKind → ℤ → Shared State Args → Shared State Args
  reset_mappers ds id [] t s = s
  reset_mappers ds id (k ∷ ks) t s = reset_mappers ds id ks t (ms.reset ds id k t s)

  unfoldable pub process_mappers :
      List Device → ℤ → List MapperKind → RawEvent → Shared State Args → Shared State Args
  process_mappers ds id [] e s = s
  process_mappers ds id (k ∷ ks) e s = process_mappers ds id ks e (ms.process ds id k e s)

  unfoldable pub timeout_mappers :
      List Device → ℤ → List MapperKind → ℤ → Shared State Args → Shared State Args
  timeout_mappers ds id [] t s = s
  timeout_mappers ds id (k ∷ ks) t s = timeout_mappers ds id ks t (ms.timeout_expired ds id k t s)

  -- InputDevice::reset: the mappers, the global meta state, and the notification.
  unfoldable pub reset_device :
      List Device → ℤ → List MapperKind → ℤ → Shared State Args → Shared State Args
  unfolding reset_mappers update_global_meta_state notify
  reset_device ds id ks t s =
      notify ms (λ n. device_reset n t id)
        (update_global_meta_state ms ds (reset_mappers ds id ks t s))

  -- One event of the device `d` with the key `id`, while events are dropped, or while they are not.
  unfoldable pub process_event :
      Bool → EventKind → ℤ → Device → RawEvent → Reader State Args → Reader State Args
  unfolding reset_device process_mappers
  process_event true syn_report id d e r = record r { dropping = set_dropping id false r.dropping }
  process_event true _ id d e r = r
  process_event false syn_dropped id d e r = record r {
    dropping = set_dropping id true r.dropping;
    shared = reset_device r.devices d.id d.mappers e.when r.shared;
  }
  process_event false _ id d e r = record r {
    shared = process_mappers r.devices d.id d.mappers e r.shared;
  }

  -- The body of the loop of InputDevice::process; `id` is the key of the device.
  unfoldable pub process_next : ℤ → RawEvent → Reader State Args → Reader State Args
  unfolding process_event
  process_next id e r = elim (vector.find id r.devices) [
    | none ↦ r
    | some d ↦ process_event (r.dropping id) e.kind id d e r
  ]

  -- InputDevice::process.
  unfoldable pub process_events_of : ℤ → List RawEvent → Reader State Args → Reader State Args
  unfolding process_next
  process_events_of id [] r = r
  process_events_of id (e ∷ es) r = process_events_of id es (process_next id e r)

  -- InputReader::processEventsForDeviceLocked.
  unfoldable pub process_events_for_device :
      ℤ → List RawEvent → Reader State Args → Reader State Args
  unfolding process_events_of
  process_events_for_device id es r = elim (vector.find id r.devices) [
    | none ↦ r
    | some d ↦ if is_ignored d then r else process_events_of id es r
  ]
