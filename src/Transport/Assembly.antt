-- ===== src/Transport/Assembly.antt =====
-- The reassembly state machine inside `receiveFromDriver` of tplin/transport.go. It returns the
-- message that the code hands to `deliverMessage`, where the frame completes one.
pub mod Invariant
use linbuskit.Base.{ℕ, ◌+◌, ◌-◌, ◌*◌, ◌/◌, ◌%◌, bit_or, min, List, ◌++◌, ◌||◌}
use linbuskit.Base.{
  Option, none, some, ltb, leb, ◌==◌, if◌then◌else◌, length, get_or, take, drop, true,
}
use linbuskit.Lin.{sf, ff, cf}
use linbuskit.Transport.Config.{max_transport_data_length}
use linbuskit.Transport.State.{LinMessage, Reassembly, reset_state}

-- A read of `payload[i]` stands behind a test of the length that rules the default out.
abbrev pub byte_at : List ℕ → ℕ → ℕ
byte_at payload i = get_or payload i 0

-- The length is that of the SID and the data, so `dataLength` is `info - 1`, and -1 at 0.
pub receive_single : ℕ → ℕ → List ℕ → Reassembly × Option LinMessage
receive_single nad info payload =
    if ltb (length payload) (info + 2) || ltb info 1 then (reset_state, none) else (
      reset_state,
      some (record {
        nad = nad;
        sid = byte_at payload 2;
        payload = take (info - 1) (drop 3 payload);
      }),
    )

pub receive_first : ℕ → ℕ → ℕ → List ℕ → Reassembly × Option LinMessage
receive_first now nad info payload =
    let len = bit_or (info * 256) (byte_at payload 2) in
    if ltb (length payload) 8
    then (reset_state, none)
    else if leb len 6 || ltb (max_transport_data_length + 1) len
    then (reset_state, none)
    else (
      record {
        current_frame_data = drop 4 payload;
        current_sid = byte_at payload 3;
        current_nad = nad;
        current_frame_counter = 0;
        remaining_bytes = len - 1 - 4;
        multi_frame_start_time = now;
      },
      none,
    )

pub receive_consecutive : ℕ → List ℕ → Reassembly → Reassembly × Option LinMessage
receive_consecutive frame_counter payload r =
    let next_frame_counter = (r.current_frame_counter + 1) % 256 % 16 in
    let len = min r.remaining_bytes 6 in
    let collected = r.current_frame_data ++ take len (drop 2 payload) in
    if r.remaining_bytes == 0
    then (reset_state, none)
    else if (if frame_counter == next_frame_counter then ltb (length payload) (len + 2) else true)
    then (reset_state, none)
    else if r.remaining_bytes - len == 0
    then (
      reset_state,
      some (record { nad = r.current_nad; sid = r.current_sid; payload = collected }),
    )
    else (
      record r {
        remaining_bytes = r.remaining_bytes - len;
        current_frame_data = collected;
        current_frame_counter = next_frame_counter;
      },
      none,
    )

-- The switch on the PCI type. A type that is none of the three changes nothing.
unfoldable pub receive_frame : ℕ → List ℕ → Reassembly → Reassembly × Option LinMessage
unfolding receive_single receive_first receive_consecutive
receive_frame now payload r =
    let nad = byte_at payload 0 in
    let pci = byte_at payload 1 in
    let info = pci % 16 in
    if pci / 16 == sf
    then receive_single nad info payload
    else if pci / 16 == ff
    then receive_first now nad info payload
    else if pci / 16 == cf
    then receive_consecutive info payload r
    else (r, none)
