-- ===== src/Kernel/Window/Laws.antt =====
-- What holds of the window list, and where it goes wrong.
use osdi_artifact.Prelude.{
  ℕ, Bool, false, ◌||◌, ◌&&◌, List, [], ◌∷◌, none, some, ◌==◌, if◌then◌else◌, ◌≡◌, ◌≢◌, arith,
  Bool-cases, inl, inr,
}
use mathlib.Core.Option
use osdi_artifact.Kernel.Window.{Window, Geometry, moved, get_window, set_window, del_window}

-- set_window changes the first window of the pid, that is the one that get_window finds, and no
-- window of another pid; the z-order that it leaves is the width that was asked for.
pub get_window-set_window :
    (p q : ℕ) (g : Geometry) (ws : List Window)
    → get_window q (set_window p g ws)
      ≡ (if p == q then Option.map (moved g) (get_window q ws) else get_window q ws)
unfolding get_window set_window
get_window-set_window p q g [] = ground arith
get_window-set_window p q g (w ∷ ws) = ground (arith, get_window-set_window p q g ws)

-- A window that set_window should raise to another z-order than its width is not raised.
pub set_window_loses_zorder :
    (p : ℕ) (g : Geometry) (ws : List Window) (w : Window)
    → get_window p (set_window p g ws) ≡ some w
    → g.zorder ≢ g.width
    → w.zorder ≢ g.zorder
unfolding get_window set_window
set_window_loses_zorder p g [] w h n = λ e. cc
set_window_loses_zorder p g (x ∷ ws) w h n = elim (Bool-cases (x.pid == p)) [
  | inl same ↦ λ e. n (ground arith)
  | inr other ↦ set_window_loses_zorder p g ws w (ground arith) n
]

abbrev pub is_registered : ℕ → List Window → Bool
is_registered p [] = false
is_registered p (w ∷ ws) = w.pid == p || is_registered p ws

-- The windows of the other pids.
abbrev pub others : ℕ → List Window → List Window
others p [] = []
others p (w ∷ ws) = if w.pid == p then others p ws else w ∷ others p ws

-- With a list_del that poisons the entry it unlinks, as the kernel's does, del_window faults
-- exactly when there is a window to delete; with one that leaves the entry's pointers, it removes
-- the windows of the pid and keeps the others in their order.
pub del_window_faults :
    (poisons : Bool) (p : ℕ) (ws : List Window)
    → del_window poisons p ws ≡ (if poisons && is_registered p ws then none else some (others p ws))
unfolding del_window
del_window_faults poisons p [] = ground arith
del_window_faults poisons p (w ∷ ws) = ground (arith, del_window_faults poisons p ws)
