-- ===== src/Preset.antt =====
-- preset/preset.go: a LIN device with a UDS client on one node and one channel. Operations are
-- serialised by the mutex, so each is one step here, and the check of `closed` before the lock is
-- the same test as the one behind it. What the device does while a request waits is the script of
-- Client.antt, so requests pass no device state.
pub mod Closing
pub mod Written
use linbuskit.Base.{
  ℕ, ℤ, pos, List, Option, none, some, Bool, true, false, ◌||◌, ltb, ◌==◌, if◌then◌else◌, length,
  Result, ok, err,
}
use linbuskit.Lin.{
  LinEvent, DriverError, World, ChecksumType, classic_checksum, enhanced_checksum, tx,
}
use linbuskit.Transport.Config.{
  broadcast_nad, master_diagnostic_frame_id, slave_diagnostic_frame_id,
}
use linbuskit.Client.{
  Client, ClientConfig, Answer, Script, default_client_config, new_client_with_config, close_client,
  send_and_rec_default, send_and_rec_with_retries,
}

-- A device is a driver with two optional capabilities, each found by a type assertion in the source.
pub record Device (S : Type 0) : Type 0 where
  pub world : World S
  pub close : Option (S → Option DriverError × S)
  pub master_read : Option (ℕ → ℕ → S → Result DriverError (List ℕ) × S)

pub data PresetError : Type 0 where
  nil_driver preset_closed master_read_unsupported : PresetError
  invalid_frame_id payload_too_long : ℕ → PresetError
  device_failed close_failed : DriverError → PresetError

-- The exported fields may be nil. `is_closed` is also whether `closeOnce` has run.
pub record Preset (S : Type 0) : Type 0 where
  pub nad : ℕ
  pub channel : ℕ
  pub lin_device : Option (Device S)
  pub client : Option Client
  pub is_closed : Bool
  pub close_error : Option PresetError

unfoldable pub new_preset : {S : Type 0} → Option (Device S) → ℕ → ℕ → Result PresetError (Preset S)
unfolding default_client_config
new_preset none target_nad channel = err nil_driver
new_preset (some device) target_nad channel = ok (record {
  nad = target_nad;
  channel = channel;
  lin_device = some device;
  client =
      some
        (new_client_with_config (record (default_client_config target_nad) { channel = channel }));
  is_closed = false;
  close_error = none;
})

-- A nil receiver counts as closed.
unfoldable pub lock_operation : {S : Type 0} → Option (Preset S) → Option PresetError
lock_operation none = some preset_closed
lock_operation (some p) = if p.is_closed then some preset_closed else none

-- What an operation on the device gives: its result, the preset and the state of the device.
abbrev pub Outcome : Type 0 → Type 0 → Type 0
Outcome S A = Result PresetError A × Option (Preset S) × S

-- The body of an operation runs under the lock.
unfoldable pub locked :
    {S A : Type 0} → (Preset S → S → Outcome S A) → Option (Preset S) → S → Outcome S A
unfolding lock_operation
locked body none s = (err preset_closed, none, s)
locked body (some p) s = elim (lock_operation (some p)) [
  | some e ↦ (err e, some p, s)
  | none ↦ body p s
]

abbrev pub close_result : {S : Type 0} → Option DriverError × S → Option PresetError × S
close_result (none, s) = (none, s)
close_result (some e, s) = (some (close_failed e), s)

abbrev pub close_device : {S : Type 0} → Option (Device S) → S → Option PresetError × S
close_device none s = (none, s)
close_device (some device) s = elim device.close [ none ↦ (none, s) | some f ↦ close_result (f s) ]

abbrev pub close_client_of : Option Client → Option Client
close_client_of none = none
close_client_of (some c) = some (close_client c)

-- What runs once.
abbrev pub close_first : {S : Type 0} → Preset S → S → Option PresetError × Option (Preset S) × S
close_first p s =
    let (e, s') = close_device p.lin_device s in
    (
      e,
      some (record p { is_closed = true; client = close_client_of p.client; close_error = e }),
      s',
    )

unfoldable pub close :
    {S : Type 0} → Option (Preset S) → S → Option PresetError × Option (Preset S) × S
close none s = (none, none, s)
close (some p) s = elim p.is_closed [ true ↦ (p.close_error, some p, s) | false ↦ close_first p s ]

-- A request's result; an answer of `none` is one that still waits.
abbrev pub Reply : Type 0 → Type 0
Reply S = Result PresetError (Option Answer) × Option (Preset S)

unfoldable pub by_client :
    {S : Type 0} → (Client → Client × Option Answer) → Option (Preset S) → Reply S
unfolding lock_operation
by_client send none = (err preset_closed, none)
by_client send (some p) = elim (lock_operation (some p)) [
  | some e ↦ (err e, some p)
  | none ↦ elim p.client [
    | none ↦ (err preset_closed, some p)
    | some c ↦ let (c', answer) = send c in (ok answer, some (record p { client = some c' }))
  ]
]

unfoldable pub request : {S : Type 0} → List ℕ → ℤ → (ℕ → Script) → Option (Preset S) → Reply S
request payload timeout scripts o = by_client (send_and_rec_default payload timeout scripts) o

unfoldable pub request_with_nad :
    {S : Type 0} → ℕ → List ℕ → ℤ → (ℕ → Script) → Option (Preset S) → Reply S
request_with_nad nad payload timeout scripts o =
    by_client (send_and_rec_with_retries nad payload timeout scripts) o

unfoldable pub function_request :
    {S : Type 0} → List ℕ → ℤ → (ℕ → Script) → Option (Preset S) → Reply S
unfolding request_with_nad
function_request payload timeout scripts o =
    request_with_nad broadcast_nad payload timeout scripts o

abbrev pub read_result :
    {S : Type 0} → Preset S → Result DriverError (List ℕ) × S → Outcome S (List ℕ)
read_result p (ok response, s) = (ok response, some p, s)
read_result p (err e, s) = (err (device_failed e), some p, s)

abbrev pub read_by :
    {S : Type 0}
    → Option (ℕ → ℕ → S → Result DriverError (List ℕ) × S)
    → ℕ
    → Preset S
    → S
    → Outcome S (List ℕ)
read_by none frame_id p s = (err master_read_unsupported, some p, s)
read_by (some read) frame_id p s = read_result p (read frame_id p.channel s)

abbrev pub reader_of :
    {S : Type 0} → Option (Device S) → Option (ℕ → ℕ → S → Result DriverError (List ℕ) × S)
reader_of none = none
reader_of (some device) = device.master_read

unfoldable pub master_read : {S : Type 0} → ℕ → Option (Preset S) → S → Outcome S (List ℕ)
master_read frame_id = locked (λ p s. read_by (reader_of p.lin_device) frame_id p s)

abbrev pub checksum_for : ℕ → ChecksumType
checksum_for frame_id =
    if frame_id == master_diagnostic_frame_id || frame_id == slave_diagnostic_frame_id
    then classic_checksum
    else enhanced_checksum

abbrev pub frame_for : ℕ → ℕ → List ℕ → LinEvent
frame_for channel frame_id data_bytes = record {
  channel = channel;
  event_id = frame_id;
  event_payload = data_bytes;
  checksum_type = checksum_for frame_id;
  direction = tx;
  timestamp = 0;
}

abbrev pub write_result : {S : Type 0} → Preset S → Option DriverError × S → Outcome S Unit
write_result p (none, s) = (ok tt, some p, s)
write_result p (some e, s) = (err (device_failed e), some p, s)

abbrev pub write_checked : {S : Type 0} → ℕ → List ℕ → Preset S → S → Outcome S Unit
write_checked frame_id data_bytes p s = elim p.lin_device [
  | none ↦ (err preset_closed, some p, s)
  | some device ↦ elim (ltb 0x3F frame_id) [
    | true ↦ (err (invalid_frame_id frame_id), some p, s)
    | false ↦ elim (ltb 8 (length data_bytes)) [
      | true ↦ (err (payload_too_long (length data_bytes)), some p, s)
      | false ↦
          write_result p (
            device.world.driver.write_message (frame_for p.channel frame_id data_bytes) p.channel s)
    ]
  ]
]

unfoldable pub write : {S : Type 0} → ℕ → List ℕ → Option (Preset S) → S → Outcome S Unit
write frame_id data_bytes = locked (write_checked frame_id data_bytes)
