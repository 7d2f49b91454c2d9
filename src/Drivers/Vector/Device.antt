-- ===== src/Drivers/Vector/Device.antt =====
-- The Vector struct of driver/vector.go and the XL library that it calls, on a 64-bit system. The
-- library is a parameter: functions over a state `S` of its own, each with the status that it
-- returns. A nil receiver, which every method refuses like a closed driver, is not a value here.
use linbuskit.Base.{
  ℕ, ◌%◌, ◌^◌, List, [], ◌∷◌, Option, none, some, Bool, false, not, ◌||◌, ◌==◌, if◌then◌else◌, ok,
  err, ℤ, negsuc,
}
use Prim.Native.String.{String}
use linbuskit.Lin.{LinEvent, ChecksumType}
use linbuskit.Simulation.{EventQueues, event_queue, set_queue}
use linbuskit.Transport.State.{send_or_drop}
use linbuskit.Drivers.Action.{Action, raise_if, gets, ◌>>=◌, ◌>>◌}
use linbuskit.Drivers.Pcan.{FrameError}
use linbuskit.Drivers.Pcan.Device.{Table}

abbrev pub vector_success : ℕ
vector_success = 0

abbrev pub vector_queue_is_empty : ℕ
vector_queue_is_empty = 10

abbrev pub vector_event_queue_size : ℕ
vector_event_queue_size = 128

abbrev pub vector_lin_master : ℕ
vector_lin_master = 1

abbrev pub vector_lin_slave : ℕ
vector_lin_slave = 2

-- A map from channels, as a list of pairs of which the first counts.
unfoldable pub lookup : {A : Type 0} → ℕ → List (ℕ × A) → Option A
lookup k [] = none
lookup k ((j, a) ∷ rest) = if j == k then some a else lookup k rest

-- TagData, read as a LIN message.
pub record XlLinMessage : Type 0 where
  pub frame_id : ℕ
  pub dlc : ℕ
  pub flags : ℕ
  pub data_bytes : List ℕ

pub record XlEvent : Type 0 where
  pub tag : ℕ
  pub channel_index : ℕ
  pub message : XlLinMessage

pub record VectorChannel : Type 0 where
  pub index : ℕ
  pub mask : ℕ

-- `hardware_channels`, `app_channels`, `dlc` and `checksum` are maps. A map that is nil is an empty
-- one. A Go string is its bytes.
pub record VectorConfig : Type 0 where
  pub app_name : List ℕ
  pub dll_path : List ℕ
  pub use_app_config : Bool
  pub device_type : ℤ
  pub device_index : ℤ
  pub hardware_channels : List (ℕ × ℤ)
  pub app_channels : Table
  pub channels : List ℕ
  pub mode : ℕ
  pub baudrate : ℤ
  pub version : ℕ
  pub dlc : Table
  pub checksum : List (ℕ × ChecksumType)
  pub rx_queue_size : ℕ

-- The procedures of vxlapi.dll with their status, and of the system the clock and a pause. A mask of
-- channels is a number of 64 bits. What a procedure writes through a pointer is what stands there
-- when it returns.
pub record VectorApi (S : Type 0) : Type 0 where
  pub open_driver : S → ℕ × S
  pub close_driver : S → ℕ × S
  pub get_app_config : List ℕ → ℕ → S → (ℕ × (ℕ × ℕ × ℕ)) × S
  pub get_channel_index : ℤ → ℤ → ℤ → S → ℕ × S
  pub get_channel_mask : ℤ → ℤ → ℤ → S → ℕ × S
  pub open_port : List ℕ → ℕ → ℕ → ℕ → S → (ℕ × (ℤ × ℕ)) × S
  pub close_port : ℤ → S → ℕ × S
  pub activate_channel : ℤ → ℕ → S → ℕ × S
  pub deactivate_channel : ℤ → ℕ → S → ℕ × S
  pub receive : ℤ → S → (ℕ × (ℕ × XlEvent)) × S
  pub lin_set_params : ℤ → ℕ → ℕ → ℤ → ℕ → S → ℕ × S
  pub lin_set_dlc : ℤ → ℕ → List ℕ → S → ℕ × S
  pub lin_set_checksum : ℤ → ℕ → List ℕ → S → ℕ × S
  pub lin_set_slave : ℤ → ℕ → ℕ → List ℕ → ℕ → ℕ → S → ℕ × S
  pub lin_switch_slave : ℤ → ℕ → ℕ → ℕ → S → ℕ × S
  pub lin_send_request : ℤ → ℕ → ℕ → S → ℕ × S
  pub lin_wake_up : ℤ → ℕ → S → ℕ × S
  pub lin_set_sleep_mode : ℤ → ℕ → ℕ → ℕ → S → ℕ × S
  pub flush_receive_queue : ℤ → S → ℕ × S
  pub get_queue_level : ℤ → S → (ℕ × ℤ) × S
  pub now : S → ℕ
  pub wait : ℕ → S → S

pub data VectorError : Type 0 where
  driver_closed : VectorError
  invalid_channel : ℕ → VectorError
  frame_error : FrameError → VectorError
  wrong_mode : ℕ → ℕ → ℕ → VectorError
  call_failed : String → ℕ → VectorError
  app_name_has_nul no_init_access : VectorError
  invalid_mode invalid_version duplicate_channel : ℕ → VectorError
  invalid_baudrate invalid_hardware_type : ℤ → VectorError
  negative_hardware_channel channel_not_found mask_not_found : ℕ → VectorError
  inconsistent_mapping same_index : ℕ → ℕ → VectorError
  invalid_table_id invalid_dlc diagnostic_dlc : ℕ → VectorError
  needs_classic diagnostic_classic : ℕ → VectorError
  received_id received_dlc checksum_error : ℕ → VectorError

-- `has_api` is whether `api` is not nil; the joined errors of Close are a list; an array of 64 is a
-- function, of which the first 64 values count. `library` is the state behind the foreign functions.
-- `is_closed` is also whether `closeOnce` has run.
pub record Vector (S : Type 0) : Type 0 where
  pub has_api : Bool
  pub config : VectorConfig
  pub port_handle : ℤ
  pub access_mask : ℕ
  pub permission : ℕ
  pub is_closed : Bool
  pub close_error : List VectorError
  pub channel_info : List (ℕ × VectorChannel)
  pub logical_by_index : Table
  pub event_chans : EventQueues
  pub dlc_table : ℕ → ℕ
  pub checksum_table : ℕ → ChecksumType
  pub library : S

abbrev pub Method : Type 0 → Type 0 → Type 0
Method S A = Action (Vector S) VectorError A

-- `int16(status)`, which is compared with small numbers only.
abbrev pub xl_status : ℕ → ℕ
xl_status code = code % 2 ^ 16

abbrev pub failure_of : String → ℕ → Option VectorError
failure_of operation code =
    if xl_status code == vector_success then none else some (call_failed operation (xl_status code))

-- Whether a port handle is `vectorInvalidPort`, which is -1.
abbrev pub is_invalid_port : ℤ → Bool
is_invalid_port (ℤ.pos n) = false
is_invalid_port (negsuc n) = n == 0

module _ {S : Type 0} where
  -- `statusArgs`, `status` and `statusAccess`
  unfoldable pub status_args : String → (S → ℕ × S) → Method S (Unit {0})
  status_args operation f v =
      let (code, s') = f v.library in
      (
        elim (failure_of operation code) [ none ↦ ok tt | some e ↦ err e ],
        record v { library = s' },
      )

  abbrev pub is_closed_driver : Vector S → Bool
  is_closed_driver v = v.is_closed || (not v.has_api || is_invalid_port v.port_handle)

  unfoldable pub validate_open : Method S (Unit {0})
  validate_open v = (if is_closed_driver v then err driver_closed else ok tt, v)

  -- The look for the channel in validateChannel.
  unfoldable pub known_channel : ℕ → Method S (Unit {0})
  known_channel channel v = (
    elim (lookup channel v.channel_info) [
      | none ↦ err (invalid_channel channel)
      | some info ↦ ok tt
    ],
    v,
  )

  unfoldable pub validate_channel : ℕ → Method S (Unit {0})
  unfolding validate_open known_channel
  validate_channel channel = do validate_open; known_channel channel

  unfoldable pub validate_mode_and_channel : ℕ → ℕ → Method S (Unit {0})
  unfolding validate_channel
  validate_mode_and_channel mode channel = do
    validate_channel channel
    current ← gets (λ v. v.config.mode)
    raise_if (not (current == mode)) (wrong_mode channel current mode)

  unfoldable pub enqueue_event : ℕ → LinEvent → Vector S → Vector S
  enqueue_event channel e v = record v {
    event_chans =
        set_queue channel
          (send_or_drop vector_event_queue_size (event_queue channel v.event_chans) e)
          v.event_chans;
  }
