-- ===== src/Drivers/Pcan/Device.antt =====
-- The PCAN struct of driver/pcan.go and the PLIN library that it calls. The library is a parameter:
-- functions over a state `S` of its own, each with the status code that it returns. A nil receiver,
-- which every method refuses like a closed driver, is not a value here.
use linbuskit.Base.{
  ℕ, List, [], ◌∷◌, Option, none, some, Bool, not, ◌||◌, ◌==◌, if◌then◌else◌, ok, err, ℤ,
}
use Prim.Native.String.{String}
use linbuskit.Simulation.{EventQueues, event_queue, set_queue}
use linbuskit.Transport.State.{send_or_drop}
use linbuskit.Lin.{LinEvent}
use linbuskit.Drivers.Pcan.{FrameError, PcanReceiveMessage}
use linbuskit.Drivers.Action.{Action, raise_if, gets, or_raise, pure, ◌>>=◌, ◌>>◌}

abbrev pub pcan_slave : ℕ
pcan_slave = 1

abbrev pub pcan_master : ℕ
pcan_master = 2

abbrev pub pcan_error_ok : ℕ
pcan_error_ok = 0

abbrev pub pcan_error_receive_queue_empty : ℕ
pcan_error_receive_queue_empty = 3

abbrev pub pcan_error_buffer_insufficient : ℕ
pcan_error_buffer_insufficient = 13

abbrev pub pcan_event_queue_size : ℕ
pcan_event_queue_size = 128

pub record PcanMessage : Type 0 where
  pub frame_id : ℕ
  pub byte_count : ℕ
  pub direction : ℕ
  pub checksum_type : ℕ
  pub data_bytes : List ℕ
  pub checksum : ℕ

pub record PcanFrameEntry : Type 0 where
  pub frame_id : ℕ
  pub byte_count : ℕ
  pub direction : ℕ
  pub checksum_type : ℕ
  pub flags : ℕ
  pub initial_data : List ℕ

-- What LIN_Read gives: a message with the rest of the fields that the driver looks at.
pub record PcanReceived : Type 0 where
  pub kind : ℕ
  pub hardware : ℕ
  pub error_flags : ℕ
  pub message : PcanReceiveMessage

-- The procedures of PLinApi.dll, and of the system the clock, a pause and the release of the DLL.
-- `free_library` gives whether it failed.
pub record PcanApi (S : Type 0) : Type 0 where
  pub register_client : List ℕ → S → (ℕ × ℕ) × S
  pub remove_client : ℕ → S → ℕ × S
  pub connect_client : ℕ → ℕ → S → ℕ × S
  pub disconnect_client : ℕ → ℕ → S → ℕ × S
  pub reset_client : ℕ → S → ℕ × S
  pub set_client_filter : ℕ → ℕ → ℕ → S → ℕ × S
  pub read : ℕ → S → (ℕ × PcanReceived) × S
  pub write : ℕ → ℕ → PcanMessage → S → ℕ × S
  pub initialize_hardware : ℕ → ℕ → ℕ → ℕ → S → ℕ × S
  pub count_hardware : S → (ℕ × ℕ) × S
  pub get_available_hardware : ℕ → S → (ℕ × (ℕ × List ℕ)) × S
  pub get_hardware_param : ℕ → ℕ → S → (ℕ × ℤ) × S
  pub set_frame_entry : ℕ → ℕ → PcanFrameEntry → S → ℕ × S
  pub update_byte_array : ℕ → ℕ → ℕ → ℕ → ℕ → List ℕ → S → ℕ × S
  pub calculate_checksum : PcanMessage → S → (ℕ × PcanMessage) × S
  pub free_library : S → Bool × S
  pub now : S → ℕ
  pub wait : ℕ → S → S

pub data PcanError : Type 0 where
  driver_closed : PcanError
  invalid_channel : ℕ → PcanError
  frame_error : FrameError → PcanError
  wrong_mode : ℕ → ℕ → ℕ → PcanError
  call_failed : String → ℕ → PcanError
  invalid_client no_hardware unload_failed : PcanError
  invalid_hardware_count : ℕ → PcanError
  hardware_changed : ℕ → ℕ → PcanError
  no_such_index : ℕ → ℕ → ℕ → PcanError
  handle_unavailable : ℕ → ℕ → PcanError
  same_hardware : ℕ → ℕ → ℕ → PcanError
  client_name_has_nul : PcanError
  invalid_mode invalid_baudrate duplicate_channel zero_handle : ℕ → PcanError

-- A map as a list of pairs, of which the first counts.
abbrev pub Table : Type 0
Table = List (ℕ × ℕ)

unfoldable pub find : ℕ → Table → Option ℕ
find k [] = none
find k ((j, v) ∷ rest) = if j == k then some v else find k rest

-- `has_api` is whether `api` is not nil; the joined errors of Close are a list. `library` is the
-- state behind the foreign functions. `is_closed` is also whether `closeOnce` has run.
pub record Pcan (S : Type 0) : Type 0 where
  pub has_api : Bool
  pub client : ℕ
  pub mode : ℕ
  pub baudrate : ℕ
  pub is_closed : Bool
  pub hardware_by_channel : Table
  pub channel_by_hardware : Table
  pub connected_hardware : List ℕ
  pub event_chans : EventQueues
  pub close_error : List PcanError
  pub library : S

abbrev pub Method : Type 0 → Type 0 → Type 0
Method S A = Action (Pcan S) PcanError A

abbrev pub failure_of : String → ℕ → Option PcanError
failure_of operation code =
    if code == pcan_error_ok then none else some (call_failed operation code)

module _ {S : Type 0} where
  abbrev pub on_library : {A : Type 0} → (S → A × S) → Method S A
  on_library f p = let (a, s') = f p.library in (ok a, record p { library = s' })

  -- `pcanCall`
  unfoldable pub pcan_call : String → (S → ℕ × S) → Method S (Unit {0})
  pcan_call operation f p =
      let (code, s') = f p.library in
      (
        elim (failure_of operation code) [ none ↦ ok tt | some e ↦ err e ],
        record p { library = s' },
      )

  -- `pcanCall` of a procedure that also writes a value.
  unfoldable pub pcan_get : {A : Type 0} → String → (S → (ℕ × A) × S) → Method S A
  pcan_get operation f p =
      let (r, s') = f p.library in
      (
        elim (failure_of operation r.0) [ none ↦ ok r.1 | some e ↦ err e ],
        record p { library = s' },
      )

  abbrev pub is_closed_driver : Pcan S → Bool
  is_closed_driver p = p.is_closed || (not p.has_api || p.client == 0)

  -- `validateChannelStateOnly`
  unfoldable pub validate_state : Method S (Unit {0})
  validate_state p = (if is_closed_driver p then err driver_closed else ok tt, p)

  abbrev pub channel_error : ℕ → Pcan S → Option PcanError
  channel_error channel p = elim (find channel p.hardware_by_channel) [
    | none ↦ some (invalid_channel channel)
    | some hardware ↦ none
  ]

  -- `hardwareByChannel[channel]`, with the error where it is missing.
  unfoldable pub hardware_of : ℕ → Method S ℕ
  hardware_of channel p = or_raise (find channel p.hardware_by_channel) (invalid_channel channel) p

  unfoldable pub validate_channel : ℕ → Method S (Unit {0})
  unfolding validate_state hardware_of
  validate_channel channel = do validate_state; hardware_of channel; pure tt

  unfoldable pub validate_mode_and_channel : ℕ → ℕ → Method S (Unit {0})
  unfolding validate_channel
  validate_mode_and_channel mode channel = do
    validate_channel channel
    current ← gets (λ p. p.mode)
    raise_if (not (current == mode)) (wrong_mode channel current mode)

  unfoldable pub enqueue_event : ℕ → LinEvent → Pcan S → Pcan S
  enqueue_event channel e p = record p {
    event_chans =
        set_queue channel (send_or_drop pcan_event_queue_size (event_queue channel p.event_chans) e)
          p.event_chans;
  }
