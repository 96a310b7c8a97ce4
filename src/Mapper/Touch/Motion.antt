-- ===== src/Mapper/Touch/Motion.antt =====
-- dispatchMotion, updateMovedPointers and dispatchTouches of TouchInputMapper in InputReader.cpp.
use osdi_artifact.Prelude.{
  ℕ, ◌+◌, ◌==◌, ℤ, Bool, false, not, ◌&&◌, ◌||◌, Option, none, some, List, [], ◌∷◌, ◌++◌, length,
  if◌then◌else◌, update,
}
use osdi_artifact.Mapper.Touch.State.{
  Parts, Action, move, down, up, pointer_down, pointer_up, Cooked, Touch, Entry, Motion, Cycle,
}

-- The place of an id among those of a motion, which become bits of the action.
unfoldable pub position : ℕ → List ℕ → ℕ
position n [] = 0
position n (id ∷ ids) = let rest = position n ids in if id == n then 0 else rest + 1

abbrev pub index_of : Option ℕ → List ℕ → ℕ
index_of none ids = 0
index_of (some n) ids = position n ids

-- The action of the one pointer there is, which a changed one is alone with.
abbrev pub alone : Action → Action
alone pointer_down = down
alone pointer_up = up
alone a = a

abbrev pub final_action : Option ℕ → ℕ → ℕ → Action → Action
final_action none index size a = a
final_action (some id) index size a = if size == 1 && index == 0 then alone a else a

module _ (parts : Parts) where
  open parts use {bits, ops, Properties, Coords, eq_properties, eq_coords}

  abbrev pub collect : Cooked parts → List ℕ → List (Entry parts)
  collect c [] = []
  collect c (id ∷ ids) =
      record { properties = c.properties (c.id_to_index id); coords = c.coords (c.id_to_index id) }
      ∷ collect c ids

  -- dispatchMotion for the pointers `b` of the cooked state `c`. `timestamp` and `buttons` can be
  -- those of another state.
  unfoldable pub dispatch_motion :
      Cycle → Action → ℕ → ℕ → ℕ → Cooked parts → bits.Bits → Option ℕ → ℤ → Motion parts
  dispatch_motion y a action_button buttons timestamp c b changed down_time =
      let ids = bits.marked b in
      record {
        when = y.when;
        policy_flags = y.policy_flags;
        action = final_action changed (index_of changed ids) (length ids) a;
        index = index_of changed ids;
        action_button = action_button;
        meta_state = y.meta_state;
        button_state = buttons;
        device_timestamp = timestamp;
        pointers = collect c ids;
        down_time = down_time;
      }

  -- One round of updateMovedPointers: where the pointer differs, it is copied from `c` to `p`.
  unfoldable pub update_pointer : Cooked parts → ℕ → Cooked parts → Cooked parts × Bool
  update_pointer c id p =
      let i = c.id_to_index id in
      let j = p.id_to_index id in
      let other = not (eq_properties (c.properties i) (p.properties j)) in
      let away = not (eq_coords (c.coords i) (p.coords j)) in
      (
        record p {
          properties = if other then update p.properties j (c.properties i) else p.properties;
          coords = if away then update p.coords j (c.coords i) else p.coords;
        },
        other || away,
      )

  unfoldable pub update_moved_pointers : Cooked parts → List ℕ → Cooked parts → Cooked parts × Bool
  update_moved_pointers c [] p = (p, false)
  update_moved_pointers c (id ∷ ids) p =
      let (p1, moved) = update_pointer c id p in
      let (p2, more) = update_moved_pointers c ids p1 in (p2, moved || more)

  -- The loop over the pointers that go up; `d` is dispatchedIdBits.
  unfoldable pub dispatch_ups :
      Cycle → Touch parts → List ℕ → bits.Bits → List (Motion parts) × bits.Bits
  dispatch_ups y t [] d = ([], d)
  dispatch_ups y t (id ∷ ids) d =
      let (rest, e) = dispatch_ups y t ids (ops.clear_bit d id) in
      (
        dispatch_motion y pointer_up 0 t.current.button_state t.current.device_timestamp t.last d
              (some id) t.down_time
            ∷ rest,
        e,
      )

  -- The first pointer that goes down sets the down time.
  abbrev pub down_time_of : Cycle → Touch parts → bits.Bits → ℤ
  down_time_of y t d = if bits.count d == 1 then y.when else t.down_time

  -- The loop over the pointers that go down.
  unfoldable pub dispatch_downs :
      Cycle → Touch parts → List ℕ → bits.Bits → List (Motion parts) × Touch parts
  dispatch_downs y t [] d = ([], t)
  dispatch_downs y t (id ∷ ids) d =
      let d' = bits.mark_bit d id in
      let t' = record t { down_time = down_time_of y t d' } in
      let (rest, u) = dispatch_downs y t' ids d' in
      (
        dispatch_motion y pointer_down 0 t.current.button_state t.current.device_timestamp t.current
              d' (some id) t'.down_time
            ∷ rest,
        u,
      )

  abbrev pub dispatch_move : Cycle → Touch parts → bits.Bits → Motion parts
  dispatch_move y t b =
      dispatch_motion y move 0 t.current.button_state t.current.device_timestamp t.current b none
        t.down_time

  -- Where the ids have changed.
  unfoldable pub dispatch_changes : Cycle → Touch parts → List (Motion parts) × Touch parts
  dispatch_changes y t =
      let now = t.current.touching_id_bits in
      let before = t.last.touching_id_bits in
      let move_bits = ops.both before now in
      let (last, moved) = update_moved_pointers t.current (bits.marked move_bits) t.last in
      let t1 = record t { last = last } in
      let move_needed = moved || not (t.current.button_state == t.last.button_state) in
      let (ups, d) = dispatch_ups y t1 (bits.marked (ops.without before now)) before in
      let moves =
        if move_needed && not (ops.is_empty move_bits) then dispatch_move y t1 d ∷ [] else [] in
      let (downs, t2) = dispatch_downs y t1 (bits.marked (ops.without now before)) d in
      (ups ++ moves ++ downs, t2)

  unfoldable pub dispatch_touches : Cycle → Touch parts → List (Motion parts) × Touch parts
  dispatch_touches y t =
      if ops.eq_bits t.current.touching_id_bits t.last.touching_id_bits
      then (if ops.is_empty t.current.touching_id_bits
          then ([], t)
          else (dispatch_move y t t.current.touching_id_bits ∷ [], t))
      else dispatch_changes y t
