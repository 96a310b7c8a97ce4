-- ===== src/Kernel/Window.antt =====
-- kernel/drivers/zizhan/window.c: the list of windows. A list of the kernel is a sequence; list_add
-- puts an entry at its head. A pid, a coordinate and an address are numbers. The spin lock is held
-- through each function, so that each is one step.
pub mod Laws
use osdi_artifact.Prelude.{
  ℕ, ℤ, Bool, true, false, List, [], ◌∷◌, Option, none, some, ◌==◌, if◌then◌else◌,
}

pub record Window : Type 0 where
  pub pid : ℕ
  pub vsync_tick : ℤ
  pub left : ℤ
  pub top : ℤ
  pub height : ℤ
  pub width : ℤ
  pub zorder : ℤ
  pub event_buffer : ℕ

-- What a caller gives for a window.
pub record Geometry : Type 0 where
  pub left : ℤ
  pub top : ℤ
  pub height : ℤ
  pub width : ℤ
  pub zorder : ℤ
  pub event_buffer : ℕ

abbrev new_window : ℕ → Geometry → Window
new_window p g = record {
  pid = p;
  vsync_tick = ℤ.pos 0;
  left = g.left;
  top = g.top;
  height = g.height;
  width = g.width;
  zorder = g.zorder;
  event_buffer = g.event_buffer;
}

-- `allocated` tells whether kzalloc returned memory. Its result is not tested: `none` is the fault
-- of the write through a null pointer.
unfoldable pub add_window : Bool → ℕ → Geometry → List Window → Option (List Window)
add_window true p g ws = some (new_window p g ∷ ws)
add_window false p g ws = none

unfoldable pub get_window : ℕ → List Window → Option Window
get_window p [] = none
get_window p (w ∷ ws) = if w.pid == p then some w else get_window p ws

-- The write of set_window; `zorder` takes the width, as the source has it.
abbrev pub moved : Geometry → Window → Window
moved g w = record w {
  left = g.left;
  top = g.top;
  height = g.height;
  width = g.width;
  zorder = g.width;
  event_buffer = g.event_buffer;
}

unfoldable pub set_window : ℕ → Geometry → List Window → List Window
set_window p g [] = []
set_window p g (w ∷ ws) = (if w.pid == p then moved g w else w) ∷ set_window p g ws

-- del_window goes on from the entry that it has just unlinked. `poisons` tells whether list_del
-- overwrites the next pointer of that entry; if it does, `none` is the fault of following it. The
-- entry is not freed.
unfoldable pub del_window : Bool → ℕ → List Window → Option (List Window)
del_window poisons p [] = some []
del_window poisons p (w ∷ ws) =
    let rest = del_window poisons p ws in
    if w.pid == p
    then if poisons then none else rest
    else elim rest [ none ↦ none | some ws' ↦ some (w ∷ ws') ]
