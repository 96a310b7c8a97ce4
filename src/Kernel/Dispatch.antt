-- ===== src/Kernel/Dispatch.antt =====
-- kernel/drivers/zizhan/dispatcher.c: an event goes to the windows on top.
pub mod Laws
use osdi_artifact.Prelude.{
  ℕ, pos, eq_ℤ, Bool, true, false, List, [], ◌∷◌, Option, none, some, ◌==◌, if◌then◌else◌,
}
use osdi_artifact.Kernel.Window.{Window}

-- An event of the queue. Its fields are copied whole.
pub record Event : Type 0 where
  pub kind : ℕ
  pub code : ℕ
  pub value : ℕ

-- The event buffers, by their addresses.
abbrev pub Memory : Type 0
Memory = ℕ → Option Event

unfoldable pub policy : Event → Window → Bool
policy e w = eq_ℤ w.zorder (pos 99)

abbrev pub write : Memory → ℕ → Event → Memory
write m a e b = if a == b then some e else m b

unfoldable pub deliver : Event → Window → Memory → Memory
deliver e w m = write m w.event_buffer e

-- `e` is what dequeue_event returns.
unfoldable pub dispatch_once : Event → List Window → Memory → Memory
unfolding policy deliver
dispatch_once e [] m = m
dispatch_once e (w ∷ ws) m = dispatch_once e ws (if policy e w then deliver e w m else m)
