-- ===== src/Reader/Queries.antt =====
-- The queries of key and switch states: InputReader::getStateLocked and InputDevice::getState of
-- InputReader.cpp. Whether a device's or a mapper's sources match the mask of the query, and what a
-- mapper answers, are arguments.
pub mod Best
use osdi_artifact.Prelude.{
  ℤ, is_neg, Bool, true, false, not, ◌&&◌, if◌then◌else◌, List, [], ◌∷◌, none, some,
}
use osdi_artifact.Reader.Devices.{Device, MapperKind, is_ignored, KeyedVector}

-- AKEY_STATE constants: -1, 0, 1 and 2.
pub data KeyState : Type 0 where
  unknown up down virtual : KeyState

-- `result >= AKEY_STATE_DOWN`.
abbrev pub is_down : KeyState → Bool
is_down down = true
is_down virtual = true
is_down _ = false

abbrev pub is_up : KeyState → Bool
is_up up = true
is_up _ = false

-- The query of one kind of state: of keys by key code, of keys by scan code, or of switches.
pub record Query : Type 0 where
  pub device_matches : Device → Bool
  pub mapper_matches : Device → MapperKind → Bool
  pub answer : Device → MapperKind → KeyState

-- The loop of InputDevice::getState; `result` is the variable of that name.
unfoldable pub get_state_from : Query → Device → List MapperKind → KeyState → KeyState
get_state_from q d [] result = result
get_state_from q d (k ∷ ks) result = elim (q.mapper_matches d k) [
  | false ↦ get_state_from q d ks result
  | true ↦ elim (is_down (q.answer d k)) [
    | true ↦ q.answer d k
    | false ↦ get_state_from q d ks (if is_up (q.answer d k) then up else result)
  ]
]

unfoldable pub get_state : Query → Device → KeyState
unfolding get_state_from
get_state q d = get_state_from q d d.mappers unknown

abbrev pub is_asked : Query → Device → Bool
is_asked q d = not (is_ignored d) && q.device_matches d

-- The loop of getStateLocked over all devices.
unfoldable pub get_state_of_all : Query → List Device → KeyState → KeyState
unfolding get_state
get_state_of_all q [] result = result
get_state_of_all q (d ∷ ds) result = elim (is_asked q d) [
  | false ↦ get_state_of_all q ds result
  | true ↦ elim (is_down (get_state q d)) [
    | true ↦ get_state q d
    | false ↦ get_state_of_all q ds (if is_up (get_state q d) then up else result)
  ]
]

unfoldable pub get_state_locked : KeyedVector → Query → ℤ → List Device → KeyState
unfolding get_state_of_all get_state
get_state_locked v q id ds =
    if is_neg id then get_state_of_all q ds unknown else elim (v.find id ds) [
      | none ↦ unknown
      | some d ↦ if is_asked q d then get_state q d else unknown
    ]
