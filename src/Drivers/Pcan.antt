-- ===== src/Drivers/Pcan.antt =====
-- driver/pcan.go, and the check of frames of driver/vector.go. Here are the parts without a state: the
-- checks of frames, checksum kinds, lengths, the protected identifier, and the event of a message.
pub mod ProtectedId
pub mod Accepted
pub mod Device
pub mod Config
pub mod Opening
pub mod Lifetime
pub mod Traffic
pub mod Reading
pub mod Mapped
pub mod Opened
pub mod Up
pub mod Ready
pub mod Calls
use linbuskit.Base.{
  ℕ, ◌+◌, ◌-◌, ◌*◌, ◌/◌, ◌%◌, ◌^◌, take, List, Option, none, some, Bool, true, false, not, ◌&&◌,
  ◌||◌, ltb, leb, ◌==◌, if◌then◌else◌, length, Result, ok, err, min, bit_or,
}
use linbuskit.Lin.{LinEvent, ChecksumType, classic_checksum, enhanced_checksum, rx, tx}

pub data FrameError : Type 0 where
  nil_event : FrameError
  invalid_frame_id invalid_payload_length diagnostic_needs_classic : ℕ → FrameError

abbrev pub is_diagnostic : ℕ → Bool
is_diagnostic frame_id = frame_id == 0x3C || frame_id == 0x3D

unfoldable pub validate_pcan_event : Option LinEvent → Option FrameError
validate_pcan_event none = some nil_event
validate_pcan_event (some e) =
    if ltb 0x3F e.event_id
    then some (invalid_frame_id e.event_id)
    else if length e.event_payload == 0 || ltb 8 (length e.event_payload)
    then some (invalid_payload_length (length e.event_payload))
    else none

abbrev pub is_classic : ChecksumType → Bool
is_classic classic_checksum = true
is_classic enhanced_checksum = false

abbrev pub pcan_checksum_classic : ℕ
pcan_checksum_classic = 1

abbrev pub pcan_checksum_enhanced : ℕ
pcan_checksum_enhanced = 2

unfoldable pub pcan_checksum_type : ℕ → ChecksumType → ℕ
pcan_checksum_type frame_id checksum =
    if is_diagnostic frame_id || is_classic checksum
    then pcan_checksum_classic
    else pcan_checksum_enhanced

unfoldable pub default_pcan_frame_length : ℕ → ℕ
default_pcan_frame_length frame_id =
    if is_diagnostic frame_id
    then 8
    else if leb frame_id 0x1F
    then 2
    else if leb frame_id 0x2F
    then 4
    else 8

-- A bit, `(id >> k) & 1`, and the exclusive or of two bits.
abbrev pub bit : ℕ → ℕ → ℕ
bit k id = id / 2 ^ k % 2

abbrev pub xor : ℕ → ℕ → ℕ
xor a b = (a + b) % 2

-- Each parity is masked to one bit, so the exclusive or of the shifted bytes is that of their last
-- bits, and the complement of a bit is its difference from one.
unfoldable pub protected_lin_id : ℕ → ℕ
protected_lin_id frame_id =
    let id = frame_id % 64 in
    let p0 = xor (xor (xor (bit 0 id) (bit 1 id)) (bit 2 id)) (bit 4 id) in
    let p1 = 1 - xor (xor (xor (bit 1 id) (bit 3 id)) (bit 4 id)) (bit 5 id) in
    bit_or (bit_or id (p0 * 64)) (p1 * 128 % 256)

-- What PLIN returns for a received frame.
pub record PcanReceiveMessage : Type 0 where
  pub frame_id : ℕ
  pub byte_count : ℕ
  pub direction : ℕ
  pub checksum_type : ℕ
  pub data_bytes : List ℕ

abbrev pub pcan_direction_publisher : ℕ
pcan_direction_publisher = 1

unfoldable pub pcan_event : PcanReceiveMessage → ℕ → ℕ → LinEvent
pcan_event m channel now = record {
  channel = channel;
  event_id = m.frame_id % 64;
  event_payload = take (min m.byte_count (length m.data_bytes)) m.data_bytes;
  checksum_type =
      if m.checksum_type == pcan_checksum_classic then classic_checksum else enhanced_checksum;
  direction = if m.direction == pcan_direction_publisher then tx else rx;
  timestamp = now;
}

unfoldable pub validate_vector_event : Option LinEvent → Option FrameError
validate_vector_event none = some nil_event
validate_vector_event (some e) =
    if ltb 0x3F e.event_id
    then some (invalid_frame_id e.event_id)
    else if length e.event_payload == 0 || ltb 8 (length e.event_payload)
    then some (invalid_payload_length (length e.event_payload))
    else if is_diagnostic e.event_id && not (is_classic e.checksum_type)
    then some (diagnostic_needs_classic e.event_id)
    else none
