-- ===== src/Kernel/Dispatch/Laws.antt =====
-- Who gets an event.
use osdi_artifact.Prelude.{
  ℕ, pos, eq_ℤ, Bool, false, ◌&&◌, ◌||◌, List, [], ◌∷◌, some, ◌==◌, if◌then◌else◌, ◌≡◌, refl, arith,
}
use osdi_artifact.Kernel.Window.{Window}
use osdi_artifact.Kernel.Dispatch.{Event, Memory, policy, deliver, dispatch_once}

-- Whether a window on top has its buffer at an address.
abbrev pub is_target : ℕ → List Window → Bool
is_target a [] = false
is_target a (w ∷ ws) = (eq_ℤ w.zorder (pos 99) && w.event_buffer == a) || is_target a ws

-- The event is in the buffer of every window of z-order 99, and every other buffer is as it was.
pub dispatch_once-is_target :
    (e : Event) (ws : List Window) (m : Memory) (a : ℕ)
    → dispatch_once e ws m a ≡ (if is_target a ws then some e else m a)
unfolding dispatch_once
dispatch_once-is_target e [] m a = refl
dispatch_once-is_target e (w ∷ ws) m a =
    ground (arith, dispatch_once-is_target e ws (if policy e w then deliver e w m else m) a)
