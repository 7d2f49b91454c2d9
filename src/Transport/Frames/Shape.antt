-- ===== src/Transport/Frames/Shape.antt =====
-- The frames that `buildFrames` makes: their sizes, their number and their headers.
use linbuskit.Base.{
  ℕ, zero, suc, ◌+◌, ◌-◌, ◌/◌, ◌%◌, ◌≤◌, ◌<◌, ◌≡◌, refl, ap, ◌∙◌, ◌⊎◌, arith, List, [], ◌∷◌, Bool,
  ltb, leb, if◌then◌else◌, length, All, take, length-copy, ok, err, Bool-cases, inl, inr, ltb→lt,
  ltb→le,
}
use linbuskit.Lin.{LinEvent, classic_checksum}
use linbuskit.Transport.Config.{
  max_transport_data_length, default_tx_queue_size, master_diagnostic_frame_id,
  slave_diagnostic_frame_id,
}
use linbuskit.Transport.State.{message_too_long}
use linbuskit.Transport.Frames.{
  diagnostic_event, events, single_payload, first_payload, consecutive_payload,
  consecutive_payloads, frame_payloads, build_frames,
}

abbrev pub IsFull : List ℕ → Type 0
IsFull p = length p ≡ 8

single_payload-IsFull : (nad sid : ℕ) (payload : List ℕ) → IsFull (single_payload nad sid payload)
unfolding single_payload
single_payload-IsFull nad sid payload =
    omega (arith, length-copy (255 ∷ 255 ∷ 255 ∷ 255 ∷ 255 ∷ []) payload)

first_payload-IsFull : (nad sid : ℕ) (payload : List ℕ) → IsFull (first_payload nad sid payload)
unfolding first_payload
first_payload-IsFull nad sid payload =
    omega (arith, length-copy (255 ∷ 255 ∷ 255 ∷ 255 ∷ []) (take 4 payload))

consecutive_payload-IsFull :
    (nad frame : ℕ) (chunk : List ℕ) → IsFull (consecutive_payload nad frame chunk)
unfolding consecutive_payload
consecutive_payload-IsFull nad frame chunk =
    omega (arith, length-copy (255 ∷ 255 ∷ 255 ∷ 255 ∷ 255 ∷ 255 ∷ []) chunk)

consecutive_payloads-IsFull :
    (fuel nad : ℕ) (payload : List ℕ) (current_byte frame : ℕ)
    → All IsFull (consecutive_payloads fuel nad payload current_byte frame)
unfolding consecutive_payloads
consecutive_payloads-IsFull zero nad payload current_byte frame = tt
consecutive_payloads-IsFull (suc fuel) nad payload current_byte frame =
    elim (Bool-cases (ltb current_byte (length payload))) [
      | inl more ↦
          rw more (consecutive_payload-IsFull _ _ _, consecutive_payloads-IsFull fuel _ _ _ _)
      | inr done ↦ rw done tt
    ]

-- Every frame has eight bytes.
pub frame_payloads-IsFull :
    (nad sid : ℕ) (payload : List ℕ) → All IsFull (frame_payloads nad sid payload)
unfolding frame_payloads
frame_payloads-IsFull nad sid payload = elim (Bool-cases (leb (length payload + 1) 6)) [
  | inl single ↦ rw single (single_payload-IsFull nad sid payload, tt)
  | inr multi ↦ rw multi (
    first_payload-IsFull nad sid payload,
    consecutive_payloads-IsFull (length payload) nad payload 4 0,
  )
]

-- The number of consecutive frames for `left` bytes.
length-consecutive_payloads :
    (fuel nad : ℕ) (payload : List ℕ) (current_byte frame : ℕ)
    → length payload ≤ current_byte + fuel
    → current_byte ≤ length payload
    → length (consecutive_payloads fuel nad payload current_byte frame)
      ≡ (length payload - current_byte + 5) / 6
unfolding consecutive_payloads
length-consecutive_payloads zero nad payload current_byte frame enough le = omega arith
length-consecutive_payloads (suc fuel) nad payload current_byte frame enough le = ground (
  arith,
  length-consecutive_payloads fuel nad payload (current_byte + 6) ((frame + 1) % 16),
  length-consecutive_payloads fuel nad payload (length payload) ((frame + 1) % 16),
)

-- The number of frames for `n` bytes of data.
abbrev pub frame_count : ℕ → ℕ
frame_count n = if leb (n + 1) 6 then 1 else (n - 4 + 5) / 6 + 1

length-frame_payloads :
    (nad sid : ℕ) (payload : List ℕ)
    → length (frame_payloads nad sid payload) ≡ frame_count (length payload)
unfolding frame_payloads
length-frame_payloads nad sid payload =
    ground (arith, length-consecutive_payloads (length payload) nad payload 4 0)

length-events :
    (is_slave : Bool) (channel : ℕ) (ps : List (List ℕ))
    → length (events is_slave channel ps) ≡ length ps
length-events is_slave channel [] = refl
length-events is_slave channel (p ∷ ps) = ap suc (length-events is_slave channel ps)

-- What holds of every frame of one sender.
pub record IsDiagnosticFrame (is_slave : Bool) (channel : ℕ) (e : LinEvent) : Type 0 where
  pub full : length e.event_payload ≡ 8
  pub on_channel : e.channel ≡ channel
  pub frame_id :
      e.event_id ≡ (if is_slave then slave_diagnostic_frame_id else master_diagnostic_frame_id)
  pub checksum : e.checksum_type ≡ classic_checksum

events-IsDiagnosticFrame :
    (is_slave : Bool) (channel : ℕ) (ps : List (List ℕ))
    → All IsFull ps
    → All (IsDiagnosticFrame is_slave channel) (events is_slave channel ps)
unfolding diagnostic_event
events-IsDiagnosticFrame is_slave channel [] h = tt
events-IsDiagnosticFrame is_slave channel (p ∷ ps) (hp, hps) = (
  record { full = hp; on_channel = refl; frame_id = refl; checksum = refl },
  events-IsDiagnosticFrame is_slave channel ps hps,
)

pub build_frames-ok :
    (is_slave : Bool) (channel nad sid : ℕ) (payload : List ℕ) {es : List LinEvent}
    → build_frames is_slave channel nad sid payload ≡ ok es
    → (length payload ≤ max_transport_data_length)
      × (es ≡ events is_slave channel (frame_payloads nad sid payload))
unfolding build_frames
build_frames-ok is_slave channel nad sid payload h = ground arith

pub length-build_frames :
    (is_slave : Bool) (channel nad sid : ℕ) (payload : List ℕ) {es : List LinEvent}
    → build_frames is_slave channel nad sid payload ≡ ok es
    → length es ≡ frame_count (length payload)
length-build_frames is_slave channel nad sid payload h =
    let ps = frame_payloads nad sid payload in
    rw ((build_frames-ok is_slave channel nad sid payload h).1)
      (length-events is_slave channel ps ∙ length-frame_payloads nad sid payload)

frame_count-le : (n : ℕ) → n ≤ max_transport_data_length → frame_count n ≤ default_tx_queue_size
frame_count-le n h = ground arith

-- `buildFrames` fails exactly on more than 4094 bytes of data. Otherwise every frame has eight
-- bytes, the sender's channel and frame ID and the classic checksum; their number is one where
-- the SID and the data fit into six bytes, and else one more than the sixths that the data past
-- the first four bytes fills; and the default transmit queue has room for them.
pub build_frames_shape :
    (is_slave : Bool) (channel nad sid : ℕ) (payload : List ℕ)
    → ((length payload ≤ max_transport_data_length)
        × (es : List LinEvent) × (build_frames is_slave channel nad sid payload ≡ ok es)
        × All (IsDiagnosticFrame is_slave channel) es
        × (length es ≡ frame_count (length payload))
        × (length es ≤ default_tx_queue_size))
      ⊎ ((max_transport_data_length < length payload)
          × (build_frames is_slave channel nad sid payload
              ≡ err (message_too_long (length payload))))
unfolding build_frames
build_frames_shape is_slave channel nad sid payload =
    elim (Bool-cases (ltb max_transport_data_length (length payload))) [
      | inl long ↦ inr (ltb→lt _ _ long, rw long)
      | inr fits ↦
          let ps = frame_payloads nad sid payload in
          let count : length (events is_slave channel ps) ≡ frame_count (length payload) =
            length-events is_slave channel ps ∙ length-frame_payloads nad sid payload in
          inl (
            ltb→le _ _ fits,
            events is_slave channel ps,
            rw fits,
            events-IsDiagnosticFrame is_slave channel ps (frame_payloads-IsFull nad sid payload),
            count,
            rw count (frame_count-le (length payload) (ltb→le _ _ fits)),
          )
    ]
