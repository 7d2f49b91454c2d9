-- ===== src/Transport/Assembly/Invariant.antt =====
-- What the reassembly state machine keeps between two frames, and what each frame does to it.
use linbuskit.Base.{
  ℕ, ◌+◌, ◌-◌, ◌*◌, ◌/◌, ◌%◌, ◌≤◌, ◌<◌, min, ◌≡◌, ◌⊎◌, arith, bit_or, List, ◌++◌, none, some,
  length, drop, take, length-append, length-slice, length-drop,
}
use linbuskit.Transport.Config.{max_transport_data_length}
use linbuskit.Transport.State.{LinMessage, Reassembly, reset_state}
use linbuskit.Transport.Assembly.{
  receive_frame, receive_single, receive_first, receive_consecutive, byte_at,
}

-- At rest nothing is held; a reception under way has its first four bytes, and with the bytes
-- still to come it stays within the longest message.
pub record IsWellFormed (r : Reassembly) : Type 0 where
  pub counter_lt : r.current_frame_counter < 16
  pub total_le : length r.current_frame_data + r.remaining_bytes ≤ max_transport_data_length
  pub at_rest : r.remaining_bytes ≡ 0 → r ≡ reset_state
  pub started : 0 < r.remaining_bytes → 4 ≤ length r.current_frame_data

pub reset_state-IsWellFormed : IsWellFormed reset_state
reset_state-IsWellFormed = ground arith

receive_single-IsWellFormed :
    (nad info : ℕ) (payload : List ℕ) → IsWellFormed (receive_single nad info payload).0
unfolding receive_single
receive_single-IsWellFormed nad info payload = ground arith

receive_first-IsWellFormed :
    (now nad info : ℕ) (payload : List ℕ)
    → length payload ≤ 8
    → IsWellFormed (receive_first now nad info payload).0
unfolding receive_first
receive_first-IsWellFormed now nad info payload h = ground (arith, length-drop 4 payload)

receive_consecutive-IsWellFormed :
    (info : ℕ) (payload : List ℕ) (r : Reassembly)
    → IsWellFormed r
    → IsWellFormed (receive_consecutive info payload r).0
unfolding receive_consecutive
receive_consecutive-IsWellFormed info payload r h = ground (
  arith,
  length-append r.current_frame_data (take (min r.remaining_bytes 6) (drop 2 payload)),
  length-slice 2 (min r.remaining_bytes 6) payload,
)

-- Every frame of at most eight bytes keeps the reassembly state well formed.
pub receive_frame-IsWellFormed :
    (now : ℕ) (payload : List ℕ) (r : Reassembly)
    → length payload ≤ 8
    → IsWellFormed r
    → IsWellFormed (receive_frame now payload r).0
unfolding receive_frame
receive_frame-IsWellFormed now payload r h wf = ground (
  arith,
  receive_single-IsWellFormed (byte_at payload 0) (byte_at payload 1 % 16) payload,
  receive_first-IsWellFormed now (byte_at payload 0) (byte_at payload 1 % 16) payload,
  receive_consecutive-IsWellFormed (byte_at payload 1 % 16) payload r wf,
)

-- The payload is a single frame that holds the message.
pub record IsSingle (payload : List ℕ) (m : LinMessage) : Type 0 where
  pub frame_type : byte_at payload 1 / 16 ≡ 0
  pub nonempty : 1 ≤ byte_at payload 1 % 16
  pub fits : byte_at payload 1 % 16 + 2 ≤ length payload
  pub nad : m.nad ≡ byte_at payload 0
  pub sid : m.sid ≡ byte_at payload 2
  pub contents : m.payload ≡ take (byte_at payload 1 % 16 - 1) (drop 3 payload)
  pub size : length m.payload + 1 ≡ byte_at payload 1 % 16

-- The payload is the consecutive frame that the reception waits for, and the last one.
pub record IsLast (payload : List ℕ) (r : Reassembly) (m : LinMessage) : Type 0 where
  pub frame_type : byte_at payload 1 / 16 ≡ 2
  pub in_sequence : byte_at payload 1 % 16 ≡ (r.current_frame_counter + 1) % 16
  pub waiting : 0 < r.remaining_bytes
  pub last : r.remaining_bytes ≤ 6
  pub nad : m.nad ≡ r.current_nad
  pub sid : m.sid ≡ r.current_sid
  pub contents : m.payload ≡ r.current_frame_data ++ take r.remaining_bytes (drop 2 payload)
  pub size : length m.payload ≡ length r.current_frame_data + r.remaining_bytes

-- A frame completes a message only if it is a single frame that holds all of it, or the next
-- frame in sequence of the reception under way, holding all that was missing. Either way the
-- reception is over.
pub receive_frame_message :
    (now : ℕ) (payload : List ℕ) (r r' : Reassembly) (m : LinMessage)
    → IsWellFormed r
    → receive_frame now payload r ≡ (r', some m)
    → (r' ≡ reset_state) × (IsSingle payload m ⊎ IsLast payload r m)
unfolding receive_frame receive_single receive_first receive_consecutive
receive_frame_message now payload r r' m wf h = ground (
  arith,
  length-slice 3 (byte_at payload 1 % 16 - 1) payload,
  length-append r.current_frame_data (take (min r.remaining_bytes 6) (drop 2 payload)),
  length-slice 2 (min r.remaining_bytes 6) payload,
)

-- The payload is a first frame that starts a reception of the length that it declares.
pub record IsStarted (now : ℕ) (payload : List ℕ) (r' : Reassembly) : Type 0 where
  pub frame_type : byte_at payload 1 / 16 ≡ 1
  pub full : 8 ≤ length payload
  pub declared : r'.remaining_bytes + 5 ≡ bit_or (byte_at payload 1 % 16 * 256) (byte_at payload 2)
  pub contents : r'.current_frame_data ≡ drop 4 payload
  pub nad : r'.current_nad ≡ byte_at payload 0
  pub sid : r'.current_sid ≡ byte_at payload 3
  pub counter : r'.current_frame_counter ≡ 0
  pub start : r'.multi_frame_start_time ≡ now

-- The payload is the next frame in sequence, and six bytes more of the message are there.
pub record IsContinued (payload : List ℕ) (r r' : Reassembly) : Type 0 where
  pub frame_type : byte_at payload 1 / 16 ≡ 2
  pub in_sequence : byte_at payload 1 % 16 ≡ (r.current_frame_counter + 1) % 16
  pub counter : r'.current_frame_counter ≡ (r.current_frame_counter + 1) % 16
  pub missing : r.remaining_bytes ≡ r'.remaining_bytes + 6
  pub contents : r'.current_frame_data ≡ r.current_frame_data ++ take 6 (drop 2 payload)
  pub size : length r'.current_frame_data ≡ length r.current_frame_data + 6
  pub nad : r'.current_nad ≡ r.current_nad
  pub sid : r'.current_sid ≡ r.current_sid
  pub start : r'.multi_frame_start_time ≡ r.multi_frame_start_time

-- If a reception is under way after a frame, then no message was completed, and the frame started
-- it, or carried it on in sequence, or is of none of the three types and changed nothing.
pub receive_frame_pending :
    (now : ℕ) (payload : List ℕ) (r : Reassembly)
    → IsWellFormed r
    → 0 < (receive_frame now payload r).0.remaining_bytes
    → ((receive_frame now payload r).1 ≡ none)
      × (IsStarted now payload (receive_frame now payload r).0
          ⊎ IsContinued payload r (receive_frame now payload r).0
          ⊎ ((3 ≤ byte_at payload 1 / 16) × ((receive_frame now payload r).0 ≡ r)))
unfolding receive_frame receive_single receive_first receive_consecutive
receive_frame_pending now payload r wf h = ground (
  arith,
  length-append r.current_frame_data (take (min r.remaining_bytes 6) (drop 2 payload)),
  length-slice 2 (min r.remaining_bytes 6) payload,
)
