-- ===== src/Reader/Devices.antt =====
-- The devices of InputReader: `mDevices`, whose KeyedVector is a parameter, and the choice of mappers
-- of createDeviceLocked. A Device has what createDeviceLocked settles; what configure and the mappers
-- change of it (mGeneration, mSources, mConfiguration) is in the state of the mappers.
use osdi_artifact.Prelude.{ℤ, Bool, true, false, ◌||◌, if◌then◌else◌, List, [], ◌∷◌, ◌++◌, Option}

-- The class bits of a device that the reader tests.
pub record Classes : Type 0 where
  pub external : Bool
  pub mic : Bool
  pub switch : Bool
  pub rotary_encoder : Bool
  pub vibrator : Bool
  pub keyboard : Bool
  pub alphakey : Bool
  pub dpad : Bool
  pub gamepad : Bool
  pub cursor : Bool
  pub key_mouse : Bool
  pub touch_mt : Bool
  pub touch : Bool
  pub joystick : Bool
  pub external_stylus : Bool

-- The source bits of a keyboard.
pub record KeyboardSource : Type 0 where
  pub keyboard : Bool
  pub dpad : Bool
  pub gamepad : Bool

-- The subclasses of InputMapper that the reader makes; a keyboard with its source and whether it is
-- alphabetic.
pub data MapperKind : Type 0 where
  switch rotary_encoder vibrator : MapperKind
  keyboard : KeyboardSource → Bool → MapperKind
  cursor key_mouse multi_touch single_touch joystick external_stylus : MapperKind

pub record Device : Type 0 where
  pub id : ℤ
  pub classes : Classes
  pub is_external : Bool
  pub has_mic : Bool
  pub mappers : List MapperKind

-- A device without mappers is ignored.
abbrev pub is_ignored : Device → Bool
is_ignored d = elim d.mappers [ [] ↦ true | _ ∷ _ ↦ false ]

abbrev when : Bool → MapperKind → List MapperKind
when true k = k ∷ []
when false k = []

unfoldable pub keyboard_mappers : Classes → List MapperKind
keyboard_mappers c =
    let source : KeyboardSource = record {
      keyboard = c.keyboard;
      dpad = c.dpad;
      gamepad = c.gamepad;
    } in
    when (c.keyboard || c.dpad || c.gamepad) (keyboard source c.alphakey)

unfoldable pub create_mappers : Classes → List MapperKind
unfolding keyboard_mappers
create_mappers c =
    when c.switch switch
    ++ (when c.rotary_encoder rotary_encoder
        ++ (when c.vibrator vibrator
            ++ (keyboard_mappers c
                ++ (when c.cursor cursor
                    ++ (when c.key_mouse key_mouse
                        ++ ((if c.touch_mt then multi_touch ∷ [] else when c.touch single_touch)
                            ++ (when c.joystick joystick
                                ++ when c.external_stylus external_stylus)))))))

unfoldable pub create_device : ℤ → Classes → Device
unfolding create_mappers
create_device id c = record {
  id = id;
  classes = c;
  is_external = c.external;
  has_mic = c.mic;
  mappers = create_mappers c;
}

-- KeyedVector of libutils: the values of a vector in the order of their keys, with `add` of a key that
-- is not there yet, and `remove`.
pub record KeyedVector : Type 0 where
  pub find : ℤ → List Device → Option Device
  pub add : ℤ → Device → List Device → List Device
  pub remove : ℤ → List Device → List Device
