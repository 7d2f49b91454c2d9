-- ===== src/Drivers/Toomoss/Device.antt =====
-- The Toomoss struct of driver/toomoss.go, its global variables, and the USB2XXX library that it calls.
-- The library is a parameter: functions over a state `S` of its own. What a procedure returns is a
-- word of 64 bits without sign, and beside it stands the error code of the system, zero for none. The
-- handle of the device, which USB_ScanDevice writes and each call passes on, is part of `S`. A nil
-- receiver, which the methods refuse like a closed device, is not a value here.
use linbuskit.Base.{
  ℕ, ◌^◌, List, [], ◌∷◌, Option, none, some, Bool, true, false, not, ltb, if◌then◌else◌, ok,
}
use Prim.Native.String.{String}
use linbuskit.Lin.{LinEvent}
use linbuskit.Simulation.{EventQueues, event_queue, set_queue}
use linbuskit.Transport.State.{send_or_drop}
use linbuskit.Drivers.Action.{Action, guard}
use linbuskit.Drivers.Channels.{occurs}
use linbuskit.Drivers.Elins.{ElinsError}
use linbuskit.Drivers.Elins.Filters.{ElinsMsg}

pub record LinExMsg : Type 0 where
  pub timestamp : ℕ
  pub msg_type : ℕ
  pub check_type : ℕ
  pub data_len : ℕ
  pub pid : ℕ
  pub data_bytes : List ℕ

-- The message of a Go `make`.
abbrev pub zero_msg : LinExMsg
zero_msg = record {
  timestamp = 0;
  msg_type = 0;
  check_type = 0;
  data_len = 0;
  pid = 0;
  data_bytes = 0 ∷ 0 ∷ 0 ∷ 0 ∷ 0 ∷ 0 ∷ 0 ∷ 0 ∷ [];
}

-- The procedures of USB2XXX.dll, and of the system the loading of libraries, the clock and a pause.
-- `load` and `free` give whether they succeeded, `has_proc` whether the loaded library has a name.
pub record ToomossApi (S : Type 0) : Type 0 where
  pub load_libusb : S → Bool × S
  pub load_usb2xxx : S → Bool × S
  pub has_proc : String → S → Bool
  pub free_library : S → Bool × S
  pub scan_device : S → (ℕ × ℕ) × S
  pub open_device : S → (ℕ × ℕ) × S
  pub close_device : S → (ℕ × ℕ) × S
  pub lin_ex_init : ℕ → ℕ → ℕ → S → ℕ × S
  pub master_sync : ℕ → List LinExMsg → S → (ℕ × ℕ × List LinExMsg) × S
  pub slave_get_data : ℕ → S → (ℕ × ℕ × List LinExMsg) × S
  pub ctrl_power_out : ℕ → ℕ → S → (ℕ × ℕ) × S
  pub elins_init : ℕ → ℕ → ℕ → ℕ → ℕ → S → (ℕ × ℕ) × S
  pub elins_set_rev_time : ℕ → ℕ → S → (ℕ × ℕ) × S
  pub elins_stop : ℕ → S → (ℕ × ℕ) × S
  pub elins_get_msg : ℕ → ℕ → S → (ℕ × ℕ × List ElinsMsg) × S
  pub now : S → ℕ
  pub wait : ℕ → S → S

pub data ToomossError : Type 0 where
  driver_closed already_active no_channel scan_failed open_failed load_failed : ToomossError
  library_not_loaded procs_missing elins_not_available free_failed : ToomossError
  empty_messages different_lengths empty_buffer not_supported event_channel_full : ToomossError
  no_slave_response break_failed slice_panic : ToomossError
  not_loaded : String → ToomossError
  call_failed : String → ℕ → ToomossError
  returned : String → ℕ → ToomossError
  invalid_channel invalid_elins_channel already_configured init_failed : ℕ → ToomossError
  invalid_payload_length invalid_frame_id write_failed : ℕ → ToomossError
  elins_error : ElinsError → ToomossError
  sync_error : ℕ → ToomossError

-- Which of the procedures have an address.
pub record Procs : Type 0 where
  pub scan_device : Bool
  pub open_device : Bool
  pub close_device : Bool
  pub lin_ex_init : Bool
  pub master_sync : Bool
  pub slave_get_data : Bool
  pub elins_init : Bool
  pub elins_get_msg : Bool
  pub elins_set_rev_time : Bool
  pub elins_stop : Bool
  pub ctrl_power_out : Bool

-- The global variables, with the state of the library behind them. `is_loaded` is whether
-- `UsbDeviceDLL` is not zero.
pub record Usb (S : Type 0) : Type 0 where
  pub is_loaded : Bool
  pub procs : Procs
  pub instance_active : Bool
  pub library : S

-- The maps of channels are lists of their keys. `is_closed` is also whether `closeOnce` has run.
pub record Toomoss : Type 0 where
  pub is_closed : Bool
  pub close_error : Option ToomossError
  pub channels : List ℕ
  pub elins_channels : List ℕ
  pub event_chans : EventQueues

-- A device with the globals.
pub record Session (S : Type 0) : Type 0 where
  pub device : Toomoss
  pub usb : Usb S

abbrev pub UsbMethod : Type 0 → Type 0 → Type 0
UsbMethod S A = Action (Usb S) ToomossError A

abbrev pub Method : Type 0 → Type 0 → Type 0
Method S A = Action (Session S) ToomossError A

-- `int(ret) < 0`
abbrev pub is_negative_word : ℕ → Bool
is_negative_word w = not (ltb w (2 ^ 63))

abbrev pub event_capacity : ℕ
event_capacity = 10

abbrev pub closed_or : Bool → Option ToomossError → Option ToomossError
closed_or true o = some driver_closed
closed_or false o = o

-- What a check of a channel returns.
unfoldable pub channel_error : ℕ → Toomoss → Option ToomossError
channel_error channel d =
    closed_or d.is_closed
      (if occurs channel d.channels then none else some (invalid_channel channel))

unfoldable pub elins_channel_error : ℕ → Toomoss → Option ToomossError
elins_channel_error channel d =
    closed_or d.is_closed
      (if occurs channel d.elins_channels then none else some (invalid_elins_channel channel))

unfoldable pub configured_channel_error : ℕ → Toomoss → Option ToomossError
configured_channel_error channel d = closed_or d.is_closed (
    if occurs channel d.channels
    then none
    else if occurs channel d.elins_channels
    then none
    else some (invalid_channel channel))

module _ {S : Type 0} where
  -- A call of the library.
  abbrev pub call : {A : Type 0} → (S → A × S) → Method S A
  call f s = let (a, l) = f s.usb.library in (ok a, record s { usb = record s.usb { library = l } })

  abbrev pub usb_call : {A : Type 0} → (S → A × S) → UsbMethod S A
  usb_call f u = let (a, l) = f u.library in (ok a, record u { library = l })

  unfoldable pub validate_channel : ℕ → Method S (Unit {0})
  unfolding channel_error
  validate_channel channel s = guard (channel_error channel s.device) s

  unfoldable pub validate_elins_channel : ℕ → Method S (Unit {0})
  unfolding elins_channel_error
  validate_elins_channel channel s = guard (elins_channel_error channel s.device) s

  unfoldable pub validate_configured_channel : ℕ → Method S (Unit {0})
  unfolding configured_channel_error
  validate_configured_channel channel s = guard (configured_channel_error channel s.device) s

  unfoldable pub enqueue_event : ℕ → LinEvent → Session S → Session S
  enqueue_event channel e s = record s {
    device = record s.device {
      event_chans =
          set_queue channel
            (send_or_drop event_capacity (event_queue channel s.device.event_chans) e)
            s.device.event_chans;
    };
  }
