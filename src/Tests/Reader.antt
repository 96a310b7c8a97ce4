-- ===== src/Tests/Reader.antt =====
-- Runs of the reader with two devices.
use osdi_artifact.Prelude.{
  negsuc, if◌then◌else◌, eq_ℤ, true, pos, true, List, [], ◌∷◌, ◌++◌, ◌≡◌, refl,
}
use osdi_artifact.Input.Event.{
  ev_key, ev_rel, rel_x, rel_y, btn_left, syn_report, syn_dropped, device_added, device_removed,
  RawEvent,
}
use osdi_artifact.Reader.Device.{process_events_of, reset_device}
use osdi_artifact.Reader.Device.Laws.{process_overrun}
use osdi_artifact.Reader.Loop.{process_events}
use osdi_artifact.Reader.Loop.Batches.{one_by_one, process_events-one_by_one}
use osdi_artifact.Reader.Queries.{KeyState, Query, get_state_locked}
use osdi_artifact.Reader.Queries.Best.{get_state_locked-best}
use osdi_artifact.Tests.Mappers.{find, vector, mappers, device, reader, event}

abbrev moves : List RawEvent
moves =
    event (pos 2) (ev_rel rel_x) (pos 4)
    ∷ event (pos 2) syn_report (pos 0)
    ∷ event (pos 5) (ev_key btn_left) (pos 1)
    ∷ event (pos 7) device_added (pos 0)
    ∷ event (pos 7) (ev_key btn_left) (pos 1)
    ∷ event (pos 5) device_removed (pos 0)
    ∷ []

process_events-one_by_one_example :
    process_events mappers moves reader ≡ one_by_one mappers moves reader
process_events-one_by_one_example = process_events-one_by_one mappers moves reader

abbrev lost : RawEvent
lost = event (pos 5) syn_dropped (pos 0)

abbrev report : RawEvent
report = event (pos 5) syn_report (pos 0)

abbrev move : RawEvent
move = event (pos 5) (ev_rel rel_y) (pos 3)

process_overrun_example :
    process_events_of mappers (pos 5) (lost ∷ (move ∷ []) ++ report ∷ move ∷ []) reader
    ≡ process_events_of mappers (pos 5) (move ∷ []) (record reader {
      shared =
          reset_device mappers reader.devices
            (pos 5)
            (device (pos 5)).mappers
            (pos 9)
            reader.shared;
    })
unfolding find
process_overrun_example =
    process_overrun mappers (pos 5) lost report (move ∷ []) (move ∷ []) reader (device (pos 5)) refl
      refl refl refl (refl, tt)

-- Device 2 answers up, and device 5 virtual.
abbrev query : Query
query = record {
  device_matches = λ d. true;
  mapper_matches = λ d k. true;
  answer = λ d k. if eq_ℤ d.id (pos 2) then KeyState.up else KeyState.virtual;
}

get_state_locked-best_example :
    get_state_locked vector query (negsuc 0) reader.devices ≡ KeyState.virtual
get_state_locked-best_example = get_state_locked-best vector query (negsuc 0) reader.devices refl
