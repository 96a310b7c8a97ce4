-- ===== src/Input/MultiTouch.antt =====
-- MultiTouchMotionAccumulator of InputReader.cpp: the slots of a multi-touch device, in protocol B
-- (the driver names the slot) and in protocol A (each contact ends with SYN_MT_REPORT). The slot
-- index is unbounded; `mSlots` and `mSlotCount` are one list.
pub mod Frame
pub mod ProtocolA
use osdi_artifact.Prelude.{
  ℕ, zero, suc, ◌-◌, ◌^◌, ◌%◌, ℤ, pos, negsuc, is_neg, eq_ℤ, ◌+ℤ◌, Bool, true, false, ◌&&◌,
  if◌then◌else◌, List, [], ◌∷◌, map, Option, none, some, ltb, length, replicate,
}
use osdi_artifact.Input.Event.{
  AbsAxis, abs_mt_slot, abs_mt_position_x, abs_mt_position_y, abs_mt_touch_major,
  abs_mt_touch_minor, abs_mt_width_major, abs_mt_width_minor, abs_mt_orientation,
  abs_mt_tracking_id, abs_mt_pressure, abs_mt_distance, abs_mt_tool_type, EventKind, ev_abs,
  syn_mt_report, msc_timestamp, RawEvent,
}
use osdi_artifact.Input.TouchButtons.{ToolType}

pub record Slot : Type 0 where
  pub in_use : Bool
  pub have_touch_minor : Bool
  pub have_width_minor : Bool
  pub have_tool_type : Bool
  pub position_x : ℤ
  pub position_y : ℤ
  pub touch_major : ℤ
  pub touch_minor : ℤ
  pub width_major : ℤ
  pub width_minor : ℤ
  pub orientation : ℤ
  pub tracking_id : ℤ
  pub pressure : ℤ
  pub distance : ℤ
  pub tool_type : ℤ

pub record MultiTouch : Type 0 where
  pub current_slot : ℤ
  pub slots : List Slot
  pub using_slots_protocol : Bool
  pub have_stylus : Bool
  pub device_timestamp : ℕ

-- Slot::clear.
abbrev pub clear_slot : Slot
clear_slot = record {
  in_use = false;
  have_touch_minor = false;
  have_width_minor = false;
  have_tool_type = false;
  position_x = pos 0;
  position_y = pos 0;
  touch_major = pos 0;
  touch_minor = pos 0;
  width_major = pos 0;
  width_minor = pos 0;
  orientation = pos 0;
  tracking_id = negsuc 0;
  pressure = pos 0;
  distance = pos 0;
  tool_type = pos 0;
}

-- The accessors of Slot that fall back to another field.
abbrev pub get_touch_minor : Slot → ℤ
get_touch_minor s = if s.have_touch_minor then s.touch_minor else s.touch_major

abbrev pub get_tool_minor : Slot → ℤ
get_tool_minor s = if s.have_width_minor then s.width_minor else s.width_major

-- The values of ABS_MT_TOOL_TYPE that the source names.
pub record MtTools : Type 0 where
  pub mt_tool_finger : ℤ
  pub mt_tool_pen : ℤ

unfoldable pub get_tool_type : MtTools → Slot → ToolType
get_tool_type tools s =
    if s.have_tool_type
    then if eq_ℤ s.tool_type tools.mt_tool_finger
      then ToolType.finger
      else if eq_ℤ s.tool_type tools.mt_tool_pen
      then ToolType.stylus
      else ToolType.unknown
    else ToolType.unknown

unfoldable pub new_multi_touch : MultiTouch
new_multi_touch = record {
  current_slot = negsuc 0;
  slots = [];
  using_slots_protocol = false;
  have_stylus = false;
  device_timestamp = 0;
}

unfoldable pub configure : (AbsAxis → Bool) → ℕ → Bool → MultiTouch → MultiTouch
configure has_absolute_axis slot_count using_slots m = record m {
  slots = replicate slot_count clear_slot;
  using_slots_protocol = using_slots;
  have_stylus = has_absolute_axis abs_mt_tool_type;
}

unfoldable pub clear_slots : ℤ → MultiTouch → MultiTouch
clear_slots initial_slot m = record m {
  slots = map (λ s. clear_slot) m.slots;
  current_slot = initial_slot;
}

-- `initial` is the answer of the driver, `none` where the call fails.
unfoldable pub reset : Option ℤ → MultiTouch → MultiTouch
unfolding clear_slots
reset initial m =
    let start : ℤ = elim initial [ none ↦ negsuc 0 | some s ↦ s ] in
    let m' = if m.using_slots_protocol then clear_slots start m else clear_slots (negsuc 0) m in
    record m' { device_timestamp = 0 }

-- The switch of `process` over one slot.
unfoldable pub write_slot : Bool → AbsAxis → ℤ → Slot → Slot
write_slot using_slots abs_mt_position_x v s = record s { in_use = true; position_x = v }
write_slot using_slots abs_mt_position_y v s = record s { in_use = true; position_y = v }
write_slot using_slots abs_mt_touch_major v s = record s { in_use = true; touch_major = v }
write_slot using_slots abs_mt_touch_minor v s = record s {
  in_use = true;
  touch_minor = v;
  have_touch_minor = true;
}
write_slot using_slots abs_mt_width_major v s = record s { in_use = true; width_major = v }
write_slot using_slots abs_mt_width_minor v s = record s {
  in_use = true;
  width_minor = v;
  have_width_minor = true;
}
write_slot using_slots abs_mt_orientation v s = record s { in_use = true; orientation = v }
write_slot using_slots abs_mt_tracking_id v s =
    if using_slots && is_neg v
    then record s { in_use = false }
    else record s { in_use = true; tracking_id = v }
write_slot using_slots abs_mt_pressure v s = record s { in_use = true; pressure = v }
write_slot using_slots abs_mt_distance v s = record s { in_use = true; distance = v }
write_slot using_slots abs_mt_tool_type v s = record s {
  in_use = true;
  tool_type = v;
  have_tool_type = true;
}
write_slot using_slots _ v s = s

-- Replaces one element; out of range nothing changes.
abbrev pub modify {ℓ} : {A : Type ℓ} → List A → ℕ → (A → A) → List A
modify [] i f = []
modify (x ∷ xs) zero f = f x ∷ xs
modify (x ∷ xs) (suc i) f = x ∷ modify xs i f

abbrev pub is_mt_slot : AbsAxis → Bool
is_mt_slot abs_mt_slot = true
is_mt_slot _ = false

-- The slot that an EV_ABS event selects before it is written.
unfoldable pub select_slot : AbsAxis → ℤ → MultiTouch → ℤ
select_slot c v m =
    if m.using_slots_protocol
    then if is_mt_slot c then v else m.current_slot
    else if is_neg m.current_slot
    then pos 0
    else m.current_slot

-- The write, guarded by the range of the selected slot.
unfoldable pub write_current : AbsAxis → ℤ → ℤ → MultiTouch → MultiTouch
write_current c v (negsuc n) m = m
write_current c v (pos n) m =
    if ltb n (length m.slots)
    then record m { slots = modify m.slots n (write_slot m.using_slots_protocol c v) }
    else m

-- The conversion of an int32_t to uint32_t.
abbrev pub to_u32 : ℤ → ℕ
to_u32 (pos n) = n % 2 ^ 32
to_u32 (negsuc n) = 2 ^ 32 - 1 - n % 2 ^ 32

on_event : EventKind → ℤ → MultiTouch → MultiTouch
unfolding select_slot write_current
on_event (ev_abs c) v m =
    let i = select_slot c v m in write_current c v i (record m { current_slot = i })
on_event syn_mt_report v m = record m { current_slot = m.current_slot +ℤ pos 1 }
on_event msc_timestamp v m = record m { device_timestamp = to_u32 v }
on_event _ v m = m

unfoldable pub process : MultiTouch → RawEvent → MultiTouch
unfolding on_event
process m e = on_event e.kind e.value m

unfoldable pub finish_sync : MultiTouch → MultiTouch
unfolding clear_slots
finish_sync m = if m.using_slots_protocol then m else clear_slots (negsuc 0) m

unfoldable pub has_stylus : MultiTouch → Bool
has_stylus m = m.have_stylus
