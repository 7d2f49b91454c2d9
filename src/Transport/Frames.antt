-- ===== src/Transport/Frames.antt =====
-- `buildFrames` of tplin/transport.go: one message as diagnostic frames.
pub mod Shape
use linbuskit.Base.{ℕ, zero, suc, ◌+◌, ◌-◌, ◌*◌, ◌/◌, ◌%◌, bit_or, List, [], ◌∷◌, Bool}
use linbuskit.Base.{ltb, leb, if◌then◌else◌, length, set, take, drop, copy_at, Result, ok, err}
use linbuskit.Lin.{LinEvent, classic_checksum, rx, sf, ff, cf}
use linbuskit.Transport.Config.{master_diagnostic_frame_id, slave_diagnostic_frame_id}
use linbuskit.Transport.Config.{max_transport_data_length}
use linbuskit.Transport.State.{Error, message_too_long}

abbrev pub new_diagnostic_frame_payload : List ℕ
new_diagnostic_frame_payload = 0xFF ∷ 0xFF ∷ 0xFF ∷ 0xFF ∷ 0xFF ∷ 0xFF ∷ 0xFF ∷ 0xFF ∷ []

-- `Direction` and `Timestamp` are left at their zero values, and `RX` is the zero direction.
unfoldable pub diagnostic_event : Bool → ℕ → List ℕ → LinEvent
diagnostic_event is_slave channel payload = record {
  channel = channel;
  event_id = if is_slave then slave_diagnostic_frame_id else master_diagnostic_frame_id;
  event_payload = payload;
  checksum_type = classic_checksum;
  direction = rx;
  timestamp = 0;
}

unfoldable pub single_payload : ℕ → ℕ → List ℕ → List ℕ
single_payload nad sid payload =
    let pci = bit_or (sf * 16) ((length payload + 1) % 256) in
    copy_at 3 (set (set (set new_diagnostic_frame_payload 0 nad) 1 pci) 2 sid) payload

unfoldable pub first_payload : ℕ → ℕ → List ℕ → List ℕ
first_payload nad sid payload =
    let data_len = length payload + 1 in
    let pci = bit_or (ff * 16) (data_len / 256 % 16) in
    let header = set (set (set new_diagnostic_frame_payload 0 nad) 1 pci) 2 (data_len % 256) in
    copy_at 4 (set header 3 sid) (take 4 payload)

unfoldable pub consecutive_payload : ℕ → ℕ → List ℕ → List ℕ
consecutive_payload nad frame chunk =
    let pci = bit_or (cf * 16) (frame % 256) in
    copy_at 2 (set (set new_diagnostic_frame_payload 0 nad) 1 pci) chunk

-- The loop over `currentByte` and `currentFrame`. It takes a byte at least in a round, so the
-- length of the data is fuel enough.
unfoldable pub consecutive_payloads : ℕ → ℕ → List ℕ → ℕ → ℕ → List (List ℕ)
consecutive_payloads zero nad payload current_byte current_frame = []
consecutive_payloads (suc fuel) nad payload current_byte current_frame =
    let next_frame = (current_frame + 1) % 16 in
    let end_byte =
      (if ltb (length payload) (current_byte + 6) then length payload else current_byte + 6) in
    let chunk = take (end_byte - current_byte) (drop current_byte payload) in
    let rest = consecutive_payloads fuel nad payload end_byte next_frame in
    if ltb current_byte (length payload)
    then consecutive_payload nad next_frame chunk ∷ rest
    else []

-- The payloads of the frames of a message that is not too long.
unfoldable pub frame_payloads : ℕ → ℕ → List ℕ → List (List ℕ)
unfolding consecutive_payloads
frame_payloads nad sid payload =
    if leb (length payload + 1) 6
    then single_payload nad sid payload ∷ []
    else first_payload nad sid payload ∷ consecutive_payloads (length payload) nad payload 4 0

abbrev pub events : Bool → ℕ → List (List ℕ) → List LinEvent
events is_slave channel [] = []
events is_slave channel (p ∷ ps) = diagnostic_event is_slave channel p ∷ events is_slave channel ps

unfoldable pub build_frames : Bool → ℕ → ℕ → ℕ → List ℕ → Result Error (List LinEvent)
unfolding frame_payloads
build_frames is_slave channel nad sid payload =
    if ltb max_transport_data_length (length payload)
    then err (message_too_long (length payload))
    else ok (events is_slave channel (frame_payloads nad sid payload))
