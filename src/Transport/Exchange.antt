-- ===== src/Transport/Exchange.antt =====
-- A whole message between two transports: the frames that `Transmit` queues on one side, received
-- by `receiveFromDriver` on the other.
use linbuskit.Base.{
  ℕ, suc, ◌<◌, ◌≡◌, refl, sym, ap, ◌∙◌, arith, List, [], ◌∷◌, ◌++◌, Option, none, some, Bool, true,
  false, not, le→ltb, lt→ltb, length, All, ok,
}
use linbuskit.Lin.{LinEvent}
use linbuskit.Transport.State.{LinMessage, Reassembly, Transport, reset_state, rx_capacity}
use linbuskit.Transport.Frames.{diagnostic_event, events, frame_payloads, build_frames}
use linbuskit.Transport.Frames.Shape.{IsFull, frame_payloads-IsFull, build_frames-ok}
use linbuskit.Transport.Assembly.{receive_frame}
use linbuskit.Transport.Queues.{deliver_message}
use linbuskit.Transport.Execute.{receive_diagnostic, accept}
use linbuskit.Transport.RoundTrip.{completed, receive_frames, receive_frames-frame_payloads}

-- Events received one after the other, the i-th at `clock i`.
unfoldable pub receive_events : (ℕ → ℕ) → List LinEvent → Transport → Transport
receive_events clock [] t = t
receive_events clock (e ∷ es) t =
    receive_events (λ i. clock (suc i)) es (receive_diagnostic (clock 0) e t).0

abbrev deliver_all : List LinMessage → Transport → Transport
deliver_all [] t = t
deliver_all (m ∷ ms) t = deliver_all ms (deliver_message m t)

deliver_message-assembly :
    (m : LinMessage) (t : Transport) (r : Reassembly)
    → deliver_message m (record t { assembly = r }) ≡ record (deliver_message m t) { assembly = r }
unfolding deliver_message
deliver_message-assembly m t r = ground arith

deliver_message-is_slave :
    (m : LinMessage) (t : Transport) → (deliver_message m t).is_slave ≡ t.is_slave
unfolding deliver_message
deliver_message-is_slave m t = ground arith

deliver_message-assembly_kept :
    (m : LinMessage) (t : Transport) → (deliver_message m t).assembly ≡ t.assembly
unfolding deliver_message
deliver_message-assembly_kept m t = ground arith

-- One diagnostic frame for us goes to the state machine.
receive_diagnostic-frame :
    (now channel : ℕ) (is_slave : Bool) (p : List ℕ) (t : Transport)
    → t.is_slave ≡ is_slave
    → IsFull p
    → receive_diagnostic now (diagnostic_event (not is_slave) channel p) t
      ≡ accept t (receive_frame now p t.assembly)
unfolding receive_diagnostic diagnostic_event
receive_diagnostic-frame now channel true p t s h = rw (s, le→ltb (length p) 2 (omega arith))
receive_diagnostic-frame now channel false p t s h = rw (s, le→ltb (length p) 2 (omega arith))

-- What is left to do after one frame, in terms of its answer.
abbrev RestGoes : (ℕ → ℕ) → List LinEvent → List (List ℕ) → Transport → Type 0
RestGoes clock es ps t =
    receive_events clock es t
    ≡ deliver_all (receive_frames clock ps t.assembly).1
        (record t { assembly = (receive_frames clock ps t.assembly).0 })

join_step :
    (clock : ℕ → ℕ) (es : List LinEvent) (ps : List (List ℕ)) (t : Transport)
    → (answer : Reassembly × Option LinMessage) → RestGoes clock es ps (accept t answer).0
    → receive_events clock es (accept t answer).0
      ≡ deliver_all
          (completed answer.1 (receive_frames clock ps answer.0).1)
          (record t { assembly = (receive_frames clock ps answer.0).0 })
join_step clock es ps t (r, none) h = h
join_step clock es ps t (r, some m) h =
    h
    ∙ ap (deliver_all (receive_frames clock ps r).1)
        (sym (deliver_message-assembly m t (receive_frames clock ps r).0))

accept-is_slave :
    (t : Transport) (answer : Reassembly × Option LinMessage)
    → (accept t answer).0.is_slave ≡ t.is_slave
accept-is_slave t (r, none) = refl
accept-is_slave t (r, some m) = deliver_message-is_slave m t

receive_events-frames :
    (clock : ℕ → ℕ) (is_slave : Bool) (channel : ℕ) (ps : List (List ℕ)) (t : Transport)
    → t.is_slave ≡ is_slave
    → All IsFull ps
    → RestGoes clock (events (not is_slave) channel ps) ps t
unfolding receive_events receive_frames
receive_events-frames clock is_slave channel [] t s h = refl
receive_events-frames clock is_slave channel (p ∷ ps) t s (hp, hps) =
    let answer = receive_frame (clock 0) p t.assembly in
    let es = events (not is_slave) channel ps in
    ap (λ (x : Transport × Bool). receive_events (λ i. clock (suc i)) es x.0)
      (receive_diagnostic-frame (clock 0) channel is_slave p t s hp)
    ∙ join_step (λ i. clock (suc i)) es ps t answer
        (receive_events-frames (λ i. clock (suc i)) is_slave channel ps (accept t answer).0
          (accept-is_slave t answer ∙ s) hps)

-- A message of at most 4094 bytes of data that one side builds and the other side receives, frame
-- by frame, is put into its queue unchanged if there is room, and nothing else of the receiver
-- changes but that no reception is under way any more. A reception under way before is lost.
pub receive_events-build_frames :
    (clock : ℕ → ℕ) (channel nad sid : ℕ) (payload : List ℕ) (t : Transport) (es : List LinEvent)
    → build_frames (not t.is_slave) channel nad sid payload ≡ ok es
    → length t.rx_queue < rx_capacity t
    → receive_events clock es t ≡ record t {
      rx_queue = t.rx_queue ++ record { nad = nad; sid = sid; payload = payload } ∷ [];
      assembly = reset_state;
    }
unfolding deliver_message
receive_events-build_frames clock channel nad sid payload t es built room =
    let (fits, same) = build_frames-ok (not t.is_slave) channel nad sid payload built in
    let ps = frame_payloads nad sid payload in
    ap (λ l. receive_events clock l t) same
    ∙ receive_events-frames clock t.is_slave channel ps t refl
        (frame_payloads-IsFull nad sid payload)
    ∙ rw (receive_frames-frame_payloads clock nad sid payload t.assembly fits, lt→ltb _ _ room)
