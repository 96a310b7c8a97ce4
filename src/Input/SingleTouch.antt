-- ===== src/Input/SingleTouch.antt =====
-- SingleTouchMotionAccumulator of InputReader.cpp.
use osdi_artifact.Prelude.{ℤ, pos}
use osdi_artifact.Input.Event.{
  AbsAxis, abs_x, abs_y, abs_pressure, abs_tool_width, abs_distance, abs_tilt_x, abs_tilt_y,
  EventKind, ev_abs, RawEvent,
}

pub record SingleTouch : Type 0 where
  pub x : ℤ
  pub y : ℤ
  pub pressure : ℤ
  pub tool_width : ℤ
  pub distance : ℤ
  pub tilt_x : ℤ
  pub tilt_y : ℤ

-- `get_absolute_axis_value` is the device's answer for an axis.
unfoldable pub reset : (AbsAxis → ℤ) → SingleTouch
reset get_absolute_axis_value = record {
  x = get_absolute_axis_value abs_x;
  y = get_absolute_axis_value abs_y;
  pressure = get_absolute_axis_value abs_pressure;
  tool_width = get_absolute_axis_value abs_tool_width;
  distance = get_absolute_axis_value abs_distance;
  tilt_x = get_absolute_axis_value abs_tilt_x;
  tilt_y = get_absolute_axis_value abs_tilt_y;
}

unfoldable pub clear_absolute_axes : SingleTouch
clear_absolute_axes = record {
  x = pos 0;
  y = pos 0;
  pressure = pos 0;
  tool_width = pos 0;
  distance = pos 0;
  tilt_x = pos 0;
  tilt_y = pos 0;
}

on_axis : EventKind → ℤ → SingleTouch → SingleTouch
on_axis (ev_abs abs_x) v t = record t { x = v }
on_axis (ev_abs abs_y) v t = record t { y = v }
on_axis (ev_abs abs_pressure) v t = record t { pressure = v }
on_axis (ev_abs abs_tool_width) v t = record t { tool_width = v }
on_axis (ev_abs abs_distance) v t = record t { distance = v }
on_axis (ev_abs abs_tilt_x) v t = record t { tilt_x = v }
on_axis (ev_abs abs_tilt_y) v t = record t { tilt_y = v }
on_axis _ v t = t

unfoldable pub process : SingleTouch → RawEvent → SingleTouch
unfolding on_axis
process t e = on_axis e.kind e.value t
