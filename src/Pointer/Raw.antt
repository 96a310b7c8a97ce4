-- ===== src/Pointer/Raw.antt =====
-- RawPointerData of InputReader.h. An array is a function of its index, changed point by point; the
-- bit sets are those of the parameter.
use osdi_artifact.Prelude.{ℕ, ℤ, Bool, if◌then◌else◌}
use osdi_artifact.Input.TouchButtons.{ToolType}
use osdi_artifact.Pointer.Bits.{BitSet32}

pub record Pointer : Type 0 where
  pub id : ℕ
  pub x : ℤ
  pub y : ℤ
  pub pressure : ℤ
  pub touch_major : ℤ
  pub touch_minor : ℤ
  pub tool_major : ℤ
  pub tool_minor : ℤ
  pub orientation : ℤ
  pub distance : ℤ
  pub tilt_x : ℤ
  pub tilt_y : ℤ
  pub tool_type : ToolType
  pub is_hovering : Bool

pub record RawPointerData (Bits : Type 0) : Type 0 where
  pub pointer_count : ℕ
  pub pointers : ℕ → Pointer
  pub hovering_id_bits : Bits
  pub touching_id_bits : Bits
  pub id_to_index : ℕ → ℕ

-- MAX_POINTERS of the input library.
abbrev pub max_pointers : ℕ
max_pointers = 16

module _ (bs : BitSet32) where
  open bs use {Bits, empty, mark_bit}

  unfoldable pub mark_id_bit : ℕ → Bool → RawPointerData Bits → RawPointerData Bits
  mark_id_bit id is_hovering d =
      if is_hovering
      then record d { hovering_id_bits = mark_bit d.hovering_id_bits id }
      else record d { touching_id_bits = mark_bit d.touching_id_bits id }

  unfoldable pub clear_id_bits : RawPointerData Bits → RawPointerData Bits
  clear_id_bits d = record d { hovering_id_bits = empty; touching_id_bits = empty }

  unfoldable pub clear : RawPointerData Bits → RawPointerData Bits
  unfolding clear_id_bits
  clear d = clear_id_bits (record d { pointer_count = 0 })
