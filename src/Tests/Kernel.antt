-- ===== src/Tests/Kernel.antt =====
-- Runs over two windows of the kernel's list.
use osdi_artifact.Prelude.{true, ℕ, ℤ, pos, List, [], ◌∷◌, none, some, ◌≡◌, ◌≢◌, refl}
use osdi_artifact.Kernel.Window.{Window, Geometry, moved, get_window, set_window, del_window}
use osdi_artifact.Kernel.Window.Laws.{
  get_window-set_window, set_window_loses_zorder, del_window_faults,
}
use osdi_artifact.Kernel.Dispatch.{Event, dispatch_once}
use osdi_artifact.Kernel.Dispatch.Laws.{dispatch_once-is_target}

abbrev window : ℕ → ℤ → ℕ → Window
window p z a = record {
  pid = p;
  vsync_tick = pos 0;
  left = pos 0;
  top = pos 0;
  height = pos 20;
  width = pos 30;
  zorder = z;
  event_buffer = a;
}

abbrev windows : List Window
windows = window 1 (pos 99) 64 ∷ window 2 (pos 5) 128 ∷ []

abbrev geometry : Geometry
geometry = record {
  left = pos 1;
  top = pos 2;
  height = pos 10;
  width = pos 40;
  zorder = pos 99;
  event_buffer = 128;
}

abbrev key : Event
key = record { kind = 1; code = 28; value = 1 }

dispatch_once-is_target_example : dispatch_once key windows (λ a. none) 64 ≡ some key
dispatch_once-is_target_example = dispatch_once-is_target key windows (λ a. none) 64

get_window-set_window_example :
    get_window 2 (set_window 2 geometry windows) ≡ some (moved geometry (window 2 (pos 5) 128))
unfolding get_window
get_window-set_window_example = get_window-set_window 2 2 geometry windows

set_window_loses_zorder_example : (moved geometry (window 2 (pos 5) 128)).zorder ≢ pos 99
unfolding get_window set_window
set_window_loses_zorder_example =
    set_window_loses_zorder 2 geometry windows (moved geometry (window 2 (pos 5) 128)) refl
      (λ e. cc)

del_window_faults_example : del_window true 2 windows ≡ none
del_window_faults_example = del_window_faults true 2 windows
