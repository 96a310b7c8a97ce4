-- ===== src/Pointer/Sync.antt =====
-- MultiTouchInputMapper::syncTouch and SingleTouchInputMapper::syncTouch of InputReader.cpp: the
-- slots or axes of a packet become pointers.
pub mod Assign
pub mod Keeps
pub mod Given
use osdi_artifact.Prelude.{
  update, ℕ, ◌+◌, ℤ, pos, is_neg, eq_ℤ, leb_ℤ, Bool, true, false, not, ◌&&◌, ◌||◌, if◌then◌else◌,
  List, [], ◌∷◌, Option, none, some, leb,
}
use osdi_artifact.Input.TouchButtons.{TouchButtons, ToolType, is_hovering, is_tool_active}
use osdi_artifact.Input.TouchButtons as Buttons
use osdi_artifact.Input.MultiTouch.{
  Slot, MultiTouch, MtTools, get_touch_minor, get_tool_minor, get_tool_type, finish_sync,
}
use osdi_artifact.Input.SingleTouch.{SingleTouch}
use osdi_artifact.Pointer.Bits.{BitSet32}
use osdi_artifact.Pointer.Raw.{Pointer, RawPointerData, max_pointers, mark_id_bit, clear_id_bits}

-- What a mapper knows beside the slots: the buttons, whether the device has a pressure axis, and
-- the values of ABS_MT_TOOL_TYPE.
pub record Device : Type 0 where
  pub buttons : TouchButtons
  pub pressure_valid : Bool
  pub tools : MtTools

-- `mPointerIdBits` and `mPointerTrackingIdMap`: the ids in use and the tracking id of each.
pub record Ids (Bits : Type 0) : Type 0 where
  pub bits : Bits
  pub tracking : ℕ → ℤ

-- The variables of the loop over the slots.
pub record Loop (Bits : Type 0) : Type 0 where
  pub out_count : ℕ
  pub out : RawPointerData Bits
  pub new_bits : Bits
  pub have_ids : Bool
  pub ids : Ids Bits

abbrev is_mouse : ToolType → Bool
is_mouse ToolType.mouse = true
is_mouse _ = false

abbrev or_tool : ToolType → ToolType → ToolType
or_tool ToolType.unknown t = t
or_tool s t = s

-- The pressure test makes a contact hover where the device has the axis and reads no pressure.
unfoldable pub hovers : Device → ℤ → Bool
hovers d pressure =
    not (is_mouse (Buttons.get_tool_type d.buttons))
    && (is_hovering d.buttons || (d.pressure_valid && leb_ℤ pressure (pos 0)))

-- All fields but the id, which stays as it stood in the array.
unfoldable pub slot_pointer : Device → Slot → Pointer → Pointer
unfolding hovers
slot_pointer d s old = record {
  id = old.id;
  x = s.position_x;
  y = s.position_y;
  pressure = s.pressure;
  touch_major = s.touch_major;
  touch_minor = get_touch_minor s;
  tool_major = s.width_major;
  tool_minor = get_tool_minor s;
  orientation = s.orientation;
  distance = s.distance;
  tilt_x = pos 0;
  tilt_y = pos 0;
  tool_type =
      or_tool (get_tool_type d.tools s) (or_tool (Buttons.get_tool_type d.buttons) ToolType.finger);
  is_hovering = hovers d s.pressure;
}

-- The inner loop: the last of the marked ids that carries the tracking id.
unfoldable pub find_id : (ℕ → ℤ) → ℤ → List ℕ → Option ℕ → Option ℕ
find_id tracking tid [] found = found
find_id tracking tid (n ∷ ns) found =
    find_id tracking tid ns (if eq_ℤ (tracking n) tid then some n else found)

module _ (bs : BitSet32) where
  open bs use {Bits, empty, mark_bit, first_unmarked, is_full, marked}

  -- `none` where the source leaves id at -1.
  unfoldable pub assign_id : ℤ → Ids Bits → Option ℕ × Ids Bits
  assign_id tid m =
      if is_neg tid then (none, m) else elim (find_id m.tracking tid (marked m.bits) none) [
        | some n ↦ (some n, m)
        | none ↦
            if is_full m.bits
            then (none, m)
            else let n = first_unmarked m.bits in
              (some n, record { bits = mark_bit m.bits n; tracking = update m.tracking n tid })
      ]

  -- The id of a pointer, or the switch to no ids at all.
  unfoldable pub give_id : Pointer → Option ℕ → Loop Bits → Loop Bits
  unfolding mark_id_bit clear_id_bits
  give_id p none l = record l {
    out = clear_id_bits bs (record l.out { pointers = update l.out.pointers l.out_count p });
    have_ids = false;
    new_bits = empty;
  }
  give_id p (some n) l = record l {
    out = mark_id_bit bs n p.is_hovering (record l.out {
      pointers = update l.out.pointers l.out_count (record p { id = n });
      id_to_index = update l.out.id_to_index n l.out_count;
    });
    new_bits = mark_bit l.new_bits n;
  }

  -- `mHavePointerIds` decides whether ids are still given.
  unfoldable pub emit_branch : ℤ → Pointer → Bool → Loop Bits → Loop Bits
  unfolding give_id
  emit_branch tid p true l =
      let (id, m) = assign_id tid l.ids in give_id p id (record l { ids = m })
  emit_branch tid p false l = record l {
    out = record l.out { pointers = update l.out.pointers l.out_count p };
  }

  -- The body of the loop for a slot in use.
  unfoldable pub emit : Device → Slot → Loop Bits → Loop Bits
  unfolding emit_branch
  emit d s l =
      let p = slot_pointer d s (l.out.pointers l.out_count) in
      let l' = emit_branch s.tracking_id p l.have_ids l in record l' { out_count = l.out_count + 1 }

  -- The loop ends early once there are MAX_POINTERS pointers.
  unfoldable pub sync_slots : Device → List Slot → Loop Bits → Loop Bits
  sync_slots d [] l = l
  sync_slots d (s ∷ ss) l = elim s.in_use [
    | false ↦ sync_slots d ss l
    | true ↦ elim (leb max_pointers l.out_count) [ true ↦ l | false ↦ sync_slots d ss (emit d s l) ]
  ]

  -- What the call leaves in the mapper and in the raw state.
  pub record Synced : Type 0 where
    pub raw : RawPointerData Bits
    pub timestamp : ℕ
    pub has_ids : Bool
    pub kept : Ids Bits
    pub touch : MultiTouch

  unfoldable pub sync_touch : Device → MultiTouch → Ids Bits → RawPointerData Bits → Synced
  sync_touch d m ids out =
      let l =
        sync_slots d m.slots
          (record { out_count = 0; out = out; new_bits = empty; have_ids = true; ids = ids }) in
      record {
        raw = record l.out { pointer_count = l.out_count };
        timestamp = m.device_timestamp;
        has_ids = l.have_ids;
        kept = record { bits = l.new_bits; tracking = l.ids.tracking };
        touch = finish_sync m;
      }

  -- The axes of a single touch, as SingleTouchMotionAccumulator reads them.
  unfoldable pub sync_single : Device → SingleTouch → RawPointerData Bits → RawPointerData Bits
  unfolding hovers mark_id_bit
  sync_single d t out =
      if is_tool_active d.buttons
      then (let hovering = hovers d t.pressure in
          let marked =
            mark_id_bit bs 0 hovering
              (record out { pointer_count = 1; id_to_index = update out.id_to_index 0 0 }) in
          record marked {
            pointers = update marked.pointers 0 (record {
              id = 0;
              x = t.x;
              y = t.y;
              pressure = t.pressure;
              touch_major = pos 0;
              touch_minor = pos 0;
              tool_major = t.tool_width;
              tool_minor = t.tool_width;
              orientation = pos 0;
              distance = t.distance;
              tilt_x = t.tilt_x;
              tilt_y = t.tilt_y;
              tool_type = or_tool (Buttons.get_tool_type d.buttons) ToolType.finger;
              is_hovering = hovering;
            });
          })
      else out
