-- ===== src/Mapper/Touch/State.antt =====
-- The state of TouchInputMapper that tells of pointers: CookedState of InputReader.h, current and last.
-- Cooking is floating point: the properties and the coordinates of a pointer are parameters.
use osdi_artifact.Prelude.{ℕ, ℤ, Bool, List, [], ◌∷◌}
use osdi_artifact.Pointer.Bits.{BitSet32}
use osdi_artifact.Mapper.Touch.Bits.{BitOps}

-- PointerProperties and PointerCoords of the input library, and BitSet32.
pub record Parts : Type 1 where
  pub bits : BitSet32
  pub ops : BitOps bits
  pub Properties : Type 0
  pub Coords : Type 0
  pub id_of : Properties → ℕ  -- PointerProperties::id
  pub eq_properties : Properties → Properties → Bool
  pub eq_coords : Coords → Coords → Bool

-- AMOTION_EVENT_ACTION_*; the index of a pointer in its upper bits stands beside it.
pub data Action : Type 0 where
  cancel move down up pointer_down pointer_up : Action
  hover_enter hover_move hover_exit button_press button_release : Action

module _ (parts : Parts) where
  open parts use {bits, Properties, Coords, id_of}

  -- CookedState with its CookedPointerData, as far as it is told of; an array is a function.
  pub record Cooked : Type 0 where
    pub device_timestamp : ℕ
    pub properties : ℕ → Properties
    pub coords : ℕ → Coords
    pub id_to_index : ℕ → ℕ
    pub touching_id_bits : bits.Bits
    pub hovering_id_bits : bits.Bits
    pub pointer_count : ℕ
    pub button_state : ℕ

  pub record Touch : Type 0 where
    pub current : Cooked
    pub last : Cooked
    pub raw_button_state : ℕ
    pub down_time : ℤ
    pub sent_hover_enter : Bool
    pub current_motion_aborted : Bool

  -- A pointer of a motion.
  pub record Entry : Type 0 where
    pub properties : Properties
    pub coords : Coords

  -- NotifyMotionArgs, less what is the same for every motion of a device.
  pub record Motion : Type 0 where
    pub when : ℤ
    pub policy_flags : ℕ
    pub action : Action
    pub index : ℕ
    pub action_button : ℕ
    pub meta_state : ℕ
    pub button_state : ℕ
    pub device_timestamp : ℕ
    pub pointers : List Entry
    pub down_time : ℤ

  -- The ids that the properties of the pointers carry.
  abbrev pub ids_of : List Entry → List ℕ
  ids_of [] = []
  ids_of (e ∷ es) = id_of e.properties ∷ ids_of es

-- What a cycle is called with, and the meta state of the context.
pub record Cycle : Type 0 where
  pub when : ℤ
  pub policy_flags : ℕ
  pub meta_state : ℕ
