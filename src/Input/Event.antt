-- ===== src/Input/Event.antt =====
-- RawEvent of InputReader.cpp. The type and the code of an event are read together, as one value:
-- a constructor for each constant that the source names, and one for all other codes. The labels of
-- a C++ switch are distinct, and so are constructors.
use osdi_artifact.Prelude.{ℕ, ℤ, Bool, true, false}

-- Codes of EV_KEY events.
pub data ScanCode : Type 0 where
  btn_left btn_right btn_middle btn_back btn_side btn_forward btn_extra btn_task : ScanCode
  keycode_enter keycode_dpad_center : ScanCode
  btn_touch btn_stylus btn_stylus2 btn_0 : ScanCode
  btn_tool_finger btn_tool_pen btn_tool_rubber btn_tool_brush btn_tool_pencil : ScanCode
  btn_tool_airbrush btn_tool_mouse btn_tool_lens : ScanCode
  btn_tool_doubletap btn_tool_tripletap btn_tool_quadtap : ScanCode
  other_key : ℕ → ScanCode

-- Codes of EV_REL events.
pub data RelAxis : Type 0 where
  rel_x rel_y rel_wheel rel_hwheel : RelAxis
  other_rel : ℕ → RelAxis

-- Codes of EV_ABS events.
pub data AbsAxis : Type 0 where
  abs_x abs_y abs_pressure abs_tool_width abs_distance abs_tilt_x abs_tilt_y : AbsAxis
  abs_mt_slot abs_mt_position_x abs_mt_position_y abs_mt_touch_major abs_mt_touch_minor : AbsAxis
  abs_mt_width_major abs_mt_width_minor abs_mt_orientation abs_mt_tracking_id : AbsAxis
  abs_mt_pressure abs_mt_distance abs_mt_tool_type : AbsAxis
  other_abs : ℕ → AbsAxis

pub data EventKind : Type 0 where
  ev_key : ScanCode → EventKind
  ev_rel : RelAxis → EventKind
  ev_abs : AbsAxis → EventKind
  syn_report syn_dropped syn_mt_report : EventKind
  msc_scan msc_timestamp : EventKind
  ev_sw : ℤ → EventKind
  other_event : ℕ → EventKind
  device_added device_removed finished_device_scan : EventKind
  other_synthetic : ℕ → EventKind

pub record RawEvent : Type 0 where
  pub when : ℤ
  pub device_id : ℤ
  pub kind : EventKind
  pub value : ℤ

-- `type >= EventHubInterface::FIRST_SYNTHETIC_EVENT`.
abbrev pub is_synthetic : EventKind → Bool
is_synthetic device_added = true
is_synthetic device_removed = true
is_synthetic finished_device_scan = true
is_synthetic (other_synthetic n) = true
is_synthetic _ = false
