-- ===== src/Tests/Pointer.antt =====
-- A run of syncTouch over two slots in use.
use osdi_artifact.Prelude.{
  ◌≤◌, ◌-ℤ◌, if◌then◌else◌, ℕ, pos, Bool, true, false, [], ◌∷◌, some, ◌≡◌, refl, arith, ◌==◌,
  get_elem?,
}
use osdi_artifact.Input.TouchButtons.{TouchButtons, ToolType, is_hovering}
use osdi_artifact.Input.MultiTouch.{MultiTouch, Slot, clear_slot}
use osdi_artifact.Pointer.Raw.{Pointer, RawPointerData}
use osdi_artifact.Pointer.Sync.{
  Device, Ids, sync_touch, sync_slots, emit, assign_id, find_id, slot_pointer,
}
use osdi_artifact.Pointer.Sync.Assign.{IsInjective, Bound}
use osdi_artifact.Pointer.Sync.Given.{sync_touch-Given}
use osdi_artifact.Pointer.Sync.Keeps.{sync_touch-binds}
use osdi_artifact.Pointer.Heap.{Element, sift_down}
use osdi_artifact.Pointer.Heap.Range.{sift_down-enough}
use osdi_artifact.Pointer.Match.{assign_pointer_ids}
use osdi_artifact.Pointer.Match.Pulls.{HaveIds}
use osdi_artifact.Pointer.Match.Ids.{HasId, assign_pointer_ids-HasId}
use osdi_artifact.Tests.Bits.{bits32}

abbrev no_touch : TouchButtons
no_touch = record {
  have_btn_touch = false;
  have_stylus = false;
  touch = true;
  stylus = false;
  stylus2 = false;
  tool_finger = true;
  tool_pen = false;
  tool_rubber = false;
  tool_brush = false;
  tool_pencil = false;
  tool_airbrush = false;
  tool_mouse = false;
  tool_lens = false;
  tool_double_tap = false;
  tool_triple_tap = false;
  tool_quad_tap = false;
}

abbrev touchscreen : Device
touchscreen = record {
  buttons = no_touch;
  pressure_valid = false;
  tools = record { mt_tool_finger = pos 0; mt_tool_pen = pos 1 };
}

abbrev slot : ℕ → Slot
slot tid = record clear_slot { in_use = true; tracking_id = pos tid }

abbrev fingers : MultiTouch
fingers = record {
  current_slot = pos 0;
  slots = slot 41 ∷ clear_slot ∷ slot 40 ∷ [];
  using_slots_protocol = true;
  have_stylus = false;
  device_timestamp = 0;
}

-- Tracking id 40 has the pointer id 0 from the packet before.
abbrev one_id : Ids (ℕ → Bool)
one_id = record { bits = λ n. n == 0; tracking = λ n. pos 40 }

abbrev old_pointer : Pointer
old_pointer = record {
  id = 0;
  x = pos 0;
  y = pos 0;
  pressure = pos 0;
  touch_major = pos 0;
  touch_minor = pos 0;
  tool_major = pos 0;
  tool_minor = pos 0;
  orientation = pos 0;
  distance = pos 0;
  tilt_x = pos 0;
  tilt_y = pos 0;
  tool_type = ToolType.unknown;
  is_hovering = false;
}

abbrev no_pointers : RawPointerData (ℕ → Bool)
no_pointers = record {
  pointer_count = 0;
  pointers = λ n. old_pointer;
  hovering_id_bits = λ n. false;
  touching_id_bits = λ n. false;
  id_to_index = λ n. 0;
}

sync_touch-binds_example :
    let r = sync_touch bits32 touchscreen fingers one_id no_pointers in
    (r.raw.pointer_count ≡ 2)
    × IsInjective bits32 r.kept
    × ((n : ℕ) → bits32.has_bit one_id.bits n ≡ true → r.kept.tracking n ≡ pos 40)
    × (r.has_ids ≡ true
        → (i : ℕ) (s : Slot) → get_elem? (slot 41 ∷ slot 40 ∷ []) i ≡ some s
        → Bound bits32 r.kept (r.raw.pointers i).id s.tracking_id)
sync_touch-binds_example =
    sync_touch-binds bits32 touchscreen fingers one_id no_pointers (λ n k hn hk e. ground arith)

-- The finger that stayed keeps id 0, and the new one gets the next.
sync_touch_ids :
    let r = sync_touch bits32 touchscreen fingers one_id no_pointers in
    ((r.raw.pointers 0).id ≡ 1) × ((r.raw.pointers 1).id ≡ 0) × (r.has_ids ≡ true)
unfolding sync_touch sync_slots emit assign_id find_id slot_pointer
    osdi_artifact.Input.TouchButtons.get_tool_type is_hovering
sync_touch_ids = (refl, refl, refl)

-- Two pointers of the packet before, with the ids 3 and 1, and three of this one.
abbrev at : ℕ → ℕ → Pointer
at x id = record old_pointer { id = id; x = pos x; tool_type = ToolType.finger }

abbrev before : RawPointerData (ℕ → Bool)
before = record no_pointers {
  pointer_count = 2;
  pointers = λ i. if i == 0 then at 10 3 else at 90 1;
}

abbrev now : RawPointerData (ℕ → Bool)
now = record no_pointers {
  pointer_count = 3;
  pointers = λ i. if i == 0 then at 88 0 else if i == 1 then at 50 0 else at 11 0;
}

before-HaveIds : HaveIds 2 before.pointers
before-HaveIds = record {
  few = omega arith;
  small = λ l h. ground arith;
  distinct = λ l k hl hk e. ground arith;
}

assign_pointer_ids-HasId_example : HasId bits32 (assign_pointer_ids bits32 before now) 2
assign_pointer_ids-HasId_example =
    assign_pointer_ids-HasId bits32 before now (omega arith) before-HaveIds 2 (omega arith)

-- The near pointers keep their ids, and the new one gets the first that is free.
assign_pointer_ids_run :
    let d = assign_pointer_ids bits32 before now in
    ((d.pointers 0).id ≡ 1) × ((d.pointers 1).id ≡ 0) × ((d.pointers 2).id ≡ 3)
unfolding assign_pointer_ids ◌-ℤ◌
assign_pointer_ids_run = (refl, refl, refl)

abbrev elements : ℕ → Element
elements i = record { current = i; last = 0; distance = if i == 0 then 9 else i }

sift_down-enough_example : sift_down 3 3 0 elements ≡ sift_down 4 3 0 elements
sift_down-enough_example = sift_down-enough 3 3 0 elements (omega arith)

sync_touch-Given_example :
    let r = sync_touch bits32 touchscreen fingers one_id no_pointers in
    (r.has_ids ≡ true) × (bits32.count r.kept.bits ≤ 16)
sync_touch-Given_example =
    sync_touch-Given bits32 touchscreen fingers one_id no_pointers
      ((λ h. refl), ((λ h. absurd (ground arith)), ((λ h. refl), tt))) (omega arith)
