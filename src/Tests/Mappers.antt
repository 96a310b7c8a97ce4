-- ===== src/Tests/Mappers.antt =====
-- Concrete mappers and a concrete event hub: a mapper sends the value of each event on, and the
-- hub counts the wake-ups.
use osdi_artifact.Prelude.{
  ℕ, ◌+◌, ℤ, eq_ℤ, ltb_ℤ, if◌then◌else◌, pos, true, false, List, [], ◌∷◌, Option, none, some,
}
use osdi_artifact.Input.Event.{EventKind, RawEvent}
use osdi_artifact.Reader.Devices.{Classes, Device, MapperKind, KeyedVector}
use osdi_artifact.Reader.Context.{Shared, Mappers, input}
use osdi_artifact.Reader.Device.{Reader}

abbrev pub cursor_classes : Classes
cursor_classes = record {
  external = true;
  mic = false;
  switch = false;
  rotary_encoder = false;
  vibrator = false;
  keyboard = true;
  alphakey = true;
  dpad = false;
  gamepad = false;
  cursor = true;
  key_mouse = false;
  touch_mt = false;
  touch = false;
  joystick = false;
  external_stylus = false;
}

unfoldable pub find : ℤ → List Device → Option Device
find id [] = none
find id (d ∷ ds) = if eq_ℤ d.id id then some d else find id ds

unfoldable pub add : ℤ → Device → List Device → List Device
add id d [] = d ∷ []
add id d (e ∷ ds) = if ltb_ℤ id e.id then d ∷ e ∷ ds else e ∷ add id d ds

unfoldable pub remove : ℤ → List Device → List Device
remove id [] = []
remove id (d ∷ ds) = if eq_ℤ d.id id then ds else d ∷ remove id ds

-- A sorted list of devices.
abbrev pub vector : KeyedVector
vector = record { find = find; add = add; remove = remove }

abbrev pub mappers : Mappers
mappers = record {
  State = ℕ;
  Args = ℤ;
  vector = vector;
  create = λ id n ks s. s;
  destroy = λ id ks s. s;
  process = λ ds id k e s. record s { queue = input e.value ∷ s.queue };
  reset = λ ds id k t s. s;
  timeout_expired = λ ds id k t s. s;
  configure = λ ds d t cs s. s;
  get_meta_state = λ s id k. 0;
  get_device_classes = λ s id. cursor_classes;
  load_configuration = λ s. s;
  request_reopen_devices = λ s. s;
  wake = λ s. s + 1;
  system_time = λ s. pos s;
  get_events = λ t s. ([], s);
  timeout_delay = λ now t. t;
  loop_zizhan = λ s. s;
  request_refresh_zizhan = λ cs s. s;
  notify_devices_changed = λ ds s. s;
}

abbrev pub shared : Shared ℕ ℤ
shared = record {
  state = 0;
  generation = 1;
  global_meta_state = 0;
  next_timeout = none;
  next_sequence_num = 1;
  queue = [];
}

abbrev pub device : ℤ → Device
device id = record {
  id = id;
  classes = cursor_classes;
  is_external = true;
  has_mic = false;
  mappers = MapperKind.cursor ∷ [];
}

-- A reader with the devices 2 and 5.
abbrev pub reader : Reader ℕ ℤ
reader = record {
  devices = device (pos 2) ∷ device (pos 5) ∷ [];
  dropping = λ id. false;
  shared = shared;
  pending = [];
}

abbrev pub event : ℤ → EventKind → ℤ → RawEvent
event id k v = record { when = pos 9; device_id = id; kind = k; value = v }
