-- ===== src/Reader/Queries/Best.antt =====
-- A query of all devices is the best of the answers of all their mappers.
use osdi_artifact.Prelude.{
  ℤ, is_neg, true, false, if◌then◌else◌, List, [], ◌∷◌, ◌++◌, ◌≡◌, refl, arith,
}
use osdi_artifact.Reader.Devices.{Device, MapperKind, KeyedVector}
use osdi_artifact.Reader.Queries.{
  KeyState, unknown, up, is_down, is_up, Query, get_state_from, get_state, is_asked,
  get_state_of_all, get_state_locked,
}

-- The first answer that is down or virtual; else up if one is; else what was there before.
abbrev pub best : List KeyState → KeyState → KeyState
best [] old = old
best (s ∷ ss) old = if is_down s then s else best ss (if is_up s then up else old)

-- The answers of the mappers of a device that the query asks.
abbrev pub answers_from : Query → Device → List MapperKind → List KeyState
answers_from q d [] = []
answers_from q d (k ∷ ks) =
    if q.mapper_matches d k then q.answer d k ∷ answers_from q d ks else answers_from q d ks

-- Those of all devices, in their order.
abbrev pub answers : Query → List Device → List KeyState
answers q [] = []
answers q (d ∷ ds) =
    if is_asked q d then answers_from q d d.mappers ++ answers q ds else answers q ds

get_state_from-best :
    (q : Query) (d : Device) (ks : List MapperKind) (result : KeyState)
    → get_state_from q d ks result ≡ best (answers_from q d ks) result
unfolding get_state_from
get_state_from-best q d [] result = refl
get_state_from-best q d (k ∷ ks) result = ground (
  arith,
  get_state_from-best q d ks result,
  get_state_from-best q d ks (if is_up (q.answer d k) then up else result),
)

-- One more result, after those before.
abbrev after : KeyState → KeyState → KeyState
after old s = if is_down s then s else if is_up s then up else old

best-after :
    (ss : List KeyState) (old : KeyState)
    → is_down old ≡ false
    → best ss old ≡ after old (best ss unknown)
best-after [] old h = ground arith
best-after (s ∷ ss) old h = ground (
  arith,
  best-after ss (if is_up s then up else old),
  best-after ss (if is_up s then up else unknown),
)

best-append :
    (ss ts : List KeyState) (old : KeyState)
    → best (ss ++ ts) old ≡ (
        if is_down (best ss unknown)
        then best ss unknown
        else best ts (if is_up (best ss unknown) then up else old))
best-append [] ts old = ground arith
best-append (s ∷ ss) ts old = ground (
  arith,
  best-append ss ts (if is_up s then up else old),
  best-after ss (if is_up s then up else unknown),
)

get_state_of_all-best :
    (q : Query) (ds : List Device) (result : KeyState)
    → get_state_of_all q ds result ≡ best (answers q ds) result
unfolding get_state_of_all get_state
get_state_of_all-best q [] result = refl
get_state_of_all-best q (d ∷ ds) result = ground (
  arith,
  get_state_of_all-best q ds result,
  get_state_of_all-best q ds (if is_up (get_state q d) then up else result),
  get_state_from-best q d d.mappers unknown,
  best-append (answers_from q d d.mappers) (answers q ds) result,
)

-- A query of all devices gives the first answer that is down or virtual among those of all mappers
-- that it asks, device by device in their order; if there is none, up if any answers up, and unknown
-- if none does.
pub get_state_locked-best :
    (v : KeyedVector) (q : Query) (id : ℤ) (ds : List Device)
    → is_neg id ≡ true
    → get_state_locked v q id ds ≡ best (answers q ds) unknown
unfolding get_state_locked
get_state_locked-best v q id ds h = rw h (get_state_of_all-best q ds unknown)
