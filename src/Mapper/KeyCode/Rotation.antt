-- ===== src/Mapper/KeyCode/Rotation.antt =====
-- The rotation of the direction keys is a rotation.
use osdi_artifact.Prelude.{◌≡◌, arith}
use osdi_artifact.Mapper.KeyCode.{
  KeyCode, Orientation, rotation_0, rotation_90, rotation_180, rotation_270, key_code_rotation_map,
  look_up, rotate_value,
}

-- One turn after another.
abbrev pub turn : Orientation → Orientation → Orientation
turn rotation_0 o = o
turn rotation_90 rotation_0 = rotation_90
turn rotation_90 rotation_90 = rotation_180
turn rotation_90 rotation_180 = rotation_270
turn rotation_90 rotation_270 = rotation_0
turn rotation_180 rotation_0 = rotation_180
turn rotation_180 rotation_90 = rotation_270
turn rotation_180 rotation_180 = rotation_0
turn rotation_180 rotation_270 = rotation_90
turn rotation_270 rotation_0 = rotation_270
turn rotation_270 rotation_90 = rotation_0
turn rotation_270 rotation_180 = rotation_90
turn rotation_270 rotation_270 = rotation_180

-- The table of the direction keys acts as the rotations do: to rotate by one orientation and then by
-- another is to rotate by their sum, for every key code.
pub rotate_value-turn :
    (v : KeyCode) (a b : Orientation)
    → rotate_value (rotate_value v a key_code_rotation_map) b key_code_rotation_map
      ≡ rotate_value v (turn a b) key_code_rotation_map
unfolding rotate_value key_code_rotation_map look_up
rotate_value-turn v a b = ground arith
