-- ===== src/Reader/Context.antt =====
-- What the mappers of InputReader share, and the reader's own fields that they reach through
-- InputReaderContext. The mappers, the event hub, the policy and the second reader of the inputzizhan
-- library are the parameter of the model: each is an operation on the shared state, which has what they change of a device.
use osdi_artifact.Prelude.{ℕ, ◌+◌, ℤ, ltb_ℤ, if◌then◌else◌, List, [], ◌∷◌, ◌++◌, Option, none, some}
use Prim.Native.Nat.{bit_or}
use osdi_artifact.Input.Event.{RawEvent}
use osdi_artifact.Reader.Devices.{Classes, Device, MapperKind, KeyedVector}

-- The arguments that the queued listener holds; `input` stands for what a mapper sends.
pub data NotifyArgs (Args : Type 0) : Type 0 where
  configuration_changed : ℕ → ℤ → NotifyArgs Args
  device_reset : ℕ → ℤ → ℤ → NotifyArgs Args
  input : Args → NotifyArgs Args

-- A timeout of `none` is LLONG_MAX.
pub record Shared (State Args : Type 0) : Type 0 where
  pub state : State
  pub generation : ℕ
  pub global_meta_state : ℕ
  pub next_timeout : Option ℤ
  pub next_sequence_num : ℕ
  pub queue : List (NotifyArgs Args)

-- Bits of InputReaderConfiguration's changes.
pub data Change : Type 0 where
  must_reopen external_stylus_presence : Change
  other_change : ℕ → Change

pub record Mappers : Type 1 where
  pub State : Type 0
  pub Args : Type 0
  pub vector : KeyedVector
  -- The constructors of a device with its generation, and of its mappers.
  pub create : ℤ → ℕ → List MapperKind → State → State
  pub destroy : ℤ → List MapperKind → State → State
  pub process : List Device → ℤ → MapperKind → RawEvent → Shared State Args → Shared State Args
  pub reset : List Device → ℤ → MapperKind → ℤ → Shared State Args → Shared State Args
  pub timeout_expired : List Device → ℤ → MapperKind → ℤ → Shared State Args → Shared State Args
  pub configure : List Device → Device → ℤ → List Change → Shared State Args → Shared State Args
  pub get_meta_state : State → ℤ → MapperKind → ℕ
  pub get_device_classes : State → ℤ → Classes
  pub load_configuration : State → State
  pub request_reopen_devices : State → State
  pub wake : State → State
  pub system_time : State → ℤ
  pub get_events : ℤ → State → List RawEvent × State
  pub timeout_delay : ℤ → ℤ → ℤ
  pub loop_zizhan : State → State
  pub request_refresh_zizhan : List Change → State → State
  pub notify_devices_changed : List Device → State → State

module _ (ms : Mappers) where
  open ms use {State, Args, get_meta_state, wake}

  unfoldable pub bump_generation : Shared State Args → Shared State Args
  bump_generation s = record s { generation = s.generation + 1 }

  unfoldable pub request_timeout : ℤ → Shared State Args → Shared State Args
  request_timeout t s = elim s.next_timeout [
    | none ↦ record s { next_timeout = some t; state = wake s.state }
    | some u ↦ if ltb_ℤ t u then record s { next_timeout = some t; state = wake s.state } else s
  ]

  -- InputDevice::getMetaState.
  unfoldable pub device_meta_state : State → ℤ → List MapperKind → ℕ
  device_meta_state st id [] = 0
  device_meta_state st id (k ∷ ks) = bit_or (get_meta_state st id k) (device_meta_state st id ks)

  unfoldable pub all_meta_state : State → List Device → ℕ
  unfolding device_meta_state
  all_meta_state st [] = 0
  all_meta_state st (d ∷ ds) = bit_or (device_meta_state st d.id d.mappers) (all_meta_state st ds)

  unfoldable pub update_global_meta_state : List Device → Shared State Args → Shared State Args
  unfolding all_meta_state
  update_global_meta_state ds s = record s { global_meta_state = all_meta_state s.state ds }

  -- A notification takes the next sequence number.
  unfoldable pub notify : (ℕ → NotifyArgs Args) → Shared State Args → Shared State Args
  notify args s = record s {
    next_sequence_num = s.next_sequence_num + 1;
    queue = s.queue ++ args s.next_sequence_num ∷ [];
  }
