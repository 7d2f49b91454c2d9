-- ===== src/Transport/RoundTrip.antt =====
-- What `buildFrames` makes of a message, `receiveFromDriver` on the other side puts together again.
use linbuskit.Base.{
  ℕ, zero, suc, ◌+◌, ◌-◌, ◌/◌, ◌%◌, ◌≤◌, ◌<◌, min, ◌≡◌, refl, ap, arith, List, [], ◌∷◌, ◌++◌,
  Option, none, some, ltb, leb, ◌==◌, if◌then◌else◌, length, take, drop, leb→le, leb→lt, lt→ltb,
  le→ltb, inl, inr, length-slice, take-append-slice, Bool-cases, ltb→lt, ltb→le, take-copy,
  copy_full, length-take, take_all, length-copy, ff_nibble, cf_nibble, sf_nibble, join_length,
}
use linbuskit.Transport.Config.{max_transport_data_length}
use linbuskit.Transport.State.{LinMessage, Reassembly, reset_state}
use linbuskit.Transport.Frames.{
  single_payload, first_payload, consecutive_payload, consecutive_payloads, frame_payloads,
}
use linbuskit.Transport.Assembly.{receive_frame}

-- A single frame is read back whatever was under way.
receive_frame-single :
    (now nad sid : ℕ) (payload : List ℕ) (r : Reassembly)
    → length payload + 1 ≤ 6
    → receive_frame now (single_payload nad sid payload) r
      ≡ (reset_state, some (record { nad = nad; sid = sid; payload = payload }))
unfolding receive_frame single_payload
receive_frame-single now nad sid payload r h = ground (
  arith,
  sf_nibble ((length payload + 1) % 256),
  take-copy (255 ∷ 255 ∷ 255 ∷ 255 ∷ 255 ∷ []) payload,
  length-copy (255 ∷ 255 ∷ 255 ∷ 255 ∷ 255 ∷ []) payload,
)

receive_frame-first :
    (now nad sid : ℕ) (payload : List ℕ) (r : Reassembly)
    → 6 ≤ length payload
    → length payload ≤ max_transport_data_length
    → receive_frame now (first_payload nad sid payload) r ≡ (
      record {
        current_frame_data = take 4 payload;
        current_sid = sid;
        current_nad = nad;
        current_frame_counter = 0;
        remaining_bytes = length payload - 4;
        multi_frame_start_time = now;
      },
      none,
    )
unfolding receive_frame first_payload
receive_frame-first now nad sid payload r lo hi = ground (
  arith,
  ff_nibble ((length payload + 1) / 256 % 16),
  join_length (length payload + 1),
  copy_full (255 ∷ 255 ∷ 255 ∷ 255 ∷ []) (take 4 payload),
  length-copy (255 ∷ 255 ∷ 255 ∷ 255 ∷ []) (take 4 payload),
  length-take 4 payload,
  take_all 4 (take 4 payload),
)

receive_frame-consecutive :
    (now nad frame : ℕ) (chunk : List ℕ) (r : Reassembly)
    → frame < 16
    → frame ≡ (r.current_frame_counter + 1) % 16
    → r.current_frame_counter < 16
    → 0 < r.remaining_bytes
    → length chunk ≡ min r.remaining_bytes 6
    → receive_frame now (consecutive_payload nad frame chunk) r ≡ (
        if r.remaining_bytes - length chunk == 0
        then (
          reset_state,
          some (record {
            nad = r.current_nad;
            sid = r.current_sid;
            payload = r.current_frame_data ++ chunk;
          }),
        )
        else (
          record r {
            remaining_bytes = r.remaining_bytes - length chunk;
            current_frame_data = r.current_frame_data ++ chunk;
            current_frame_counter = frame;
          },
          none,
        ))
unfolding receive_frame consecutive_payload
receive_frame-consecutive now nad frame chunk r hf hc hr pos_remaining len = ground (
  arith,
  cf_nibble (frame % 256),
  take-copy (255 ∷ 255 ∷ 255 ∷ 255 ∷ 255 ∷ 255 ∷ []) chunk,
  length-copy (255 ∷ 255 ∷ 255 ∷ 255 ∷ 255 ∷ 255 ∷ []) chunk,
)

-- What a receiver holds after the first frame and the consecutive frames up to `current_byte`.
abbrev assembling : ℕ → ℕ → List ℕ → ℕ → ℕ → ℕ → Reassembly
assembling nad sid payload current_byte frame start = record {
  current_frame_data = take current_byte payload;
  current_sid = sid;
  current_nad = nad;
  current_frame_counter = frame;
  remaining_bytes = length payload - current_byte;
  multi_frame_start_time = start;
}

-- Frames received one after the other, the i-th at `clock i`, and the messages that they complete.
abbrev pub completed : Option LinMessage → List LinMessage → List LinMessage
completed none msgs = msgs
completed (some msg) msgs = msg ∷ msgs

unfoldable pub receive_frames : (ℕ → ℕ) → List (List ℕ) → Reassembly → Reassembly × List LinMessage
receive_frames clock [] r = (r, [])
receive_frames clock (p ∷ ps) r =
    let (r', done) = receive_frame (clock 0) p r in
    let (r'', msgs) = receive_frames (λ i. clock (suc i)) ps r' in (r'', completed done msgs)

module _ (nad sid : ℕ) (payload : List ℕ) (start : ℕ) where
  step_more :
      (now current_byte frame : ℕ)
      → frame < 16
      → current_byte + 6 < length payload
      → receive_frame now
          (consecutive_payload nad ((frame + 1) % 16) (take 6 (drop current_byte payload)))
          (assembling nad sid payload current_byte frame start)
        ≡ (assembling nad sid payload (current_byte + 6) ((frame + 1) % 16) start, none)
  step_more now current_byte frame hf more = ground (
    arith,
    receive_frame-consecutive now nad ((frame + 1) % 16) (take 6 (drop current_byte payload))
        (assembling nad sid payload current_byte frame start),
    length-slice current_byte 6 payload,
    take-append-slice current_byte 6 payload,
  )

  step_last :
      (now current_byte frame : ℕ)
      → frame < 16
      → current_byte < length payload
      → length payload ≤ current_byte + 6
      → receive_frame now
          (consecutive_payload nad
            ((frame + 1) % 16)
            (take (length payload - current_byte) (drop current_byte payload)))
          (assembling nad sid payload current_byte frame start)
        ≡ (reset_state, some (record { nad = nad; sid = sid; payload = payload }))
  step_last now current_byte frame hf some_left last = ground (
    arith,
    receive_frame-consecutive now nad ((frame + 1) % 16)
        (take (length payload - current_byte) (drop current_byte payload))
        (assembling nad sid payload current_byte frame start),
    length-slice current_byte (length payload - current_byte) payload,
    take-append-slice current_byte (length payload - current_byte) payload,
    take_all (current_byte + (length payload - current_byte)) payload,
  )

  consecutive_payloads-end :
      (fuel frame : ℕ) → consecutive_payloads fuel nad payload (length payload) frame ≡ []
  unfolding consecutive_payloads
  consecutive_payloads-end zero frame = refl
  consecutive_payloads-end (suc fuel) frame = ground arith

  -- One round of the loop, with a full chunk and with the last one.
  consecutive_payloads-more :
      (fuel current_byte frame : ℕ)
      → current_byte + 6 < length payload
      → consecutive_payloads (suc fuel) nad payload current_byte frame
        ≡ consecutive_payload nad ((frame + 1) % 16) (take 6 (drop current_byte payload))
          ∷ consecutive_payloads fuel nad payload (current_byte + 6) ((frame + 1) % 16)
  unfolding consecutive_payloads
  consecutive_payloads-more fuel current_byte frame more =
      rw (le→ltb (length payload) (current_byte + 6) (omega arith)) (
        rw (lt→ltb current_byte (length payload) (omega arith)) (
          ap
            (λ k.
              consecutive_payload nad ((frame + 1) % 16) (take k (drop current_byte payload))
              ∷ consecutive_payloads fuel nad payload (current_byte + 6) ((frame + 1) % 16))
            {y = 6} (omega arith)))

  consecutive_payloads-last :
      (fuel current_byte frame : ℕ)
      → current_byte < length payload
      → length payload ≤ current_byte + 6
      → consecutive_payloads (suc fuel) nad payload current_byte frame
        ≡ consecutive_payload nad
            ((frame + 1) % 16)
            (take (length payload - current_byte) (drop current_byte payload))
          ∷ []
  unfolding consecutive_payloads
  consecutive_payloads-last fuel current_byte frame left last =
      ground (arith, consecutive_payloads-end fuel ((frame + 1) % 16))

  receive_frames-consecutive :
      (fuel : ℕ) (clock : ℕ → ℕ) (current_byte frame : ℕ)
      → frame < 16
      → current_byte < length payload
      → length payload ≤ current_byte + fuel
      → receive_frames clock
          (consecutive_payloads fuel nad payload current_byte frame)
          (assembling nad sid payload current_byte frame start)
        ≡ (reset_state, record { nad = nad; sid = sid; payload = payload } ∷ [])
  unfolding receive_frames
  receive_frames-consecutive zero clock current_byte frame hf left enough = absurd (omega arith)
  receive_frames-consecutive (suc fuel) clock current_byte frame hf left enough =
      elim (Bool-cases (ltb (current_byte + 6) (length payload))) [
        | inl more ↦
            rw
              (
                consecutive_payloads-more fuel current_byte frame (ltb→lt _ _ more),
                step_more (clock 0) current_byte frame hf (ltb→lt _ _ more),
              )
              (receive_frames-consecutive fuel (λ i. clock (suc i)) (current_byte + 6)
                ((frame + 1) % 16) (omega arith) (ltb→lt _ _ more) (omega arith))
        | inr last ↦ rw (
          consecutive_payloads-last fuel current_byte frame left (ltb→le _ _ last),
          step_last (clock 0) current_byte frame hf left (ltb→le _ _ last),
        )
      ]

-- All frames of a message give the message back, whatever was under way.
pub receive_frames-frame_payloads :
    (clock : ℕ → ℕ) (nad sid : ℕ) (payload : List ℕ) (r : Reassembly)
    → length payload ≤ max_transport_data_length
    → receive_frames clock (frame_payloads nad sid payload) r
      ≡ (reset_state, record { nad = nad; sid = sid; payload = payload } ∷ [])
unfolding receive_frames frame_payloads
receive_frames-frame_payloads clock nad sid payload r h =
    elim (Bool-cases (leb (length payload + 1) 6)) [
      | inl single ↦
          rw (single, receive_frame-single (clock 0) nad sid payload r (leb→le _ _ single))
      | inr multi ↦
          let lo : 6 ≤ length payload = omega (arith, leb→lt _ _ multi) in
          rw (multi, receive_frame-first (clock 0) nad sid payload r lo h)
            (receive_frames-consecutive nad sid payload (clock 0) (length payload)
              (λ i. clock (suc i)) 4 0 (omega arith) (omega arith) (omega arith))
    ]
