-- ===== src/Lin.antt =====
-- liniface/liniface.go: raw LIN events and the interface that a driver offers; with the clock, the
-- world that the transport runs in. A byte is a number, a time is a count of nanoseconds.
use linbuskit.Base.{ℕ, List, Option, Result, Bool, true, false, ℤ}
use Prim.Native.String.{String}

pub data ChecksumType : Type 0 where
  classic_checksum enhanced_checksum : ChecksumType

-- `rx` was received from the bus, `tx` was sent to it.
pub data Direction : Type 0 where
  rx tx : Direction

-- The PCI types, as the numbers that they are on the bus.
abbrev pub sf : ℕ
sf = 0

abbrev pub ff : ℕ
ff = 1

abbrev pub cf : ℕ
cf = 2

pub record LinEvent : Type 0 where
  pub channel : ℕ
  pub event_id : ℕ
  pub event_payload : List ℕ
  pub checksum_type : ChecksumType
  pub direction : Direction
  pub timestamp : ℕ

abbrev pub is_rx : Direction → Bool
is_rx rx = true
is_rx tx = false

abbrev pub is_tx : Direction → Bool
is_tx rx = false
is_tx tx = true

-- The errors that the interface names, and those of a driver's own.
pub data DriverError : Type 0 where
  driver_closed : DriverError
  invalid_channel : DriverError
  other : String → DriverError

-- The four methods, over the state `S` of the hardware or simulation behind them.
pub record Driver (S : Type 0) : Type 0 where
  pub read_event : ℤ → ℕ → S → Result DriverError (Option LinEvent) × S
  pub write_message : LinEvent → ℕ → S → Option DriverError × S
  pub schedule_slave_response : LinEvent → ℕ → S → Option DriverError × S
  pub request_slave_response : ℕ → ℕ → S → Option DriverError × S

-- The driver, and the time that `time.Now` reads in a state.
pub record World (S : Type 0) : Type 0 where
  pub driver : Driver S
  pub now : S → ℕ
