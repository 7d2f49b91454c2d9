-- ===== src/Tests/Transport.antt =====
-- Runs of the transport, and its theorems at concrete inputs.
use linbuskit.Base.{
  ℕ, ◌≤◌, ◌<◌, ◌≡◌, ◌⊎◌, refl, arith, List, [], ◌∷◌, none, some, true, false, ok, err, length, All,
  pos, is_some,
}
use linbuskit.Lin.{LinEvent, tx}
use linbuskit.Transport.Config.{TransportConfig, max_transport_data_length, default_tx_queue_size}
use linbuskit.Transport.State.{Transport, LinMessage, Error, message_too_long, reset_state}
use linbuskit.Transport.Frames.{
  build_frames, single_payload, first_payload, consecutive_payload, consecutive_payloads,
  diagnostic_event,
}
use linbuskit.Transport.Frames.Shape.{IsDiagnosticFrame, frame_count, build_frames_shape}
use linbuskit.Transport.Assembly.{receive_frame}
use linbuskit.Transport.Assembly.Invariant.{
  IsWellFormed, IsSingle, IsLast, IsStarted, IsContinued, receive_frame_message,
  receive_frame_pending,
}
use linbuskit.Transport.Queues.{transmit, deliver_message}
use linbuskit.Transport.Queues.Laws.{IsValid, queued, Refusal, transmit_atomic}
use linbuskit.Transport.Execute.{
  execute, cycle, read_loop, receive_from_driver, receive_diagnostic, slave_turn,
  check_multi_frame_timeout,
}
use linbuskit.Transport.Execute.Invariant.{cycle-IsValid}
use linbuskit.Transport.Execute.Termination.{execute_ends}
use linbuskit.Transport.Exchange.{receive_events, receive_events-build_frames}
use linbuskit.Tests.Data.{
  ten_bytes, now_is, event, master_transport, slave_transport, receiving, finishing, playing,
  playing-Drains, short_frames, short_frames-GivesLinFrames,
}

-- Ten bytes of data take a first frame and one consecutive frame.
abbrev two_frames : List LinEvent
two_frames =
    event 0x3C (0x01 ∷ 0x10 ∷ 11 ∷ 0x22 ∷ 1 ∷ 2 ∷ 3 ∷ 4 ∷ [])
    ∷ event 0x3C (0x01 ∷ 0x21 ∷ 5 ∷ 6 ∷ 7 ∷ 8 ∷ 9 ∷ 10 ∷ [])
    ∷ []

two_frames_built : build_frames false 0 0x01 0x22 ten_bytes ≡ ok two_frames
unfolding build_frames consecutive_payloads single_payload first_payload consecutive_payload
    diagnostic_event
two_frames_built = refl

receive_events-build_frames_example :
    receive_events (now_is 3) two_frames slave_transport ≡ record slave_transport {
      rx_queue = record { nad = 0x01; sid = 0x22; payload = ten_bytes } ∷ [];
    }
receive_events-build_frames_example =
    receive_events-build_frames (now_is 3) 0 0x01 0x22 ten_bytes slave_transport two_frames
      two_frames_built (omega arith)

build_frames_shape_example :
    ((length ten_bytes ≤ max_transport_data_length)
      × (es : List LinEvent) × (build_frames false 0 0x01 0x22 ten_bytes ≡ ok es)
      × All (IsDiagnosticFrame false 0) es
      × (length es ≡ frame_count (length ten_bytes))
      × (length es ≤ default_tx_queue_size))
    ⊎ ((max_transport_data_length < length ten_bytes)
        × (build_frames false 0 0x01 0x22 ten_bytes ≡ err (message_too_long (length ten_bytes))))
build_frames_shape_example = build_frames_shape false 0 0x01 0x22 ten_bytes

abbrev last_frame : List ℕ
last_frame = 0x01 ∷ 0x21 ∷ 7 ∷ 8 ∷ 9 ∷ []

abbrev whole_message : LinMessage
whole_message = record { nad = 1; sid = 0x22; payload = 1 ∷ 2 ∷ 3 ∷ 4 ∷ 7 ∷ 8 ∷ 9 ∷ [] }

finishing-IsWellFormed : IsWellFormed finishing
finishing-IsWellFormed = ground arith

receiving-IsWellFormed : IsWellFormed receiving
receiving-IsWellFormed = ground arith

receive_frame_message_example :
    (reset_state ≡ reset_state)
    × (IsSingle last_frame whole_message ⊎ IsLast last_frame finishing whole_message)
receive_frame_message_example =
    receive_frame_message 9 last_frame finishing reset_state whole_message finishing-IsWellFormed
      (unfold receive_frame in refl)

abbrev middle_frame : List ℕ
middle_frame = 0x01 ∷ 0x21 ∷ 5 ∷ 6 ∷ 7 ∷ 8 ∷ 9 ∷ 10 ∷ []

receive_frame_pending_example :
    ((receive_frame 9 middle_frame receiving).1 ≡ none)
    × (IsStarted 9 middle_frame (receive_frame 9 middle_frame receiving).0
        ⊎ IsContinued middle_frame receiving (receive_frame 9 middle_frame receiving).0
        ⊎ ((3 ≤ 2) × ((receive_frame 9 middle_frame receiving).0 ≡ receiving)))
receive_frame_pending_example =
    receive_frame_pending 9 middle_frame receiving receiving-IsWellFormed
      (unfold receive_frame in omega arith)

transmit_atomic_example :
    ((es : List LinEvent) × (build_frames false 0 0x01 0x22 ten_bytes ≡ ok es)
      × (master_transport.closed ≡ false)
      × (frame_count (length ten_bytes) ≤ 683)
      × (transmit 0x01 0x22 ten_bytes master_transport ≡ (queued es master_transport, none)))
    ⊎ ((e : Error) × Refusal master_transport ten_bytes e
        × (transmit 0x01 0x22 ten_bytes master_transport ≡ (master_transport, some e)))
transmit_atomic_example = transmit_atomic 0x01 0x22 ten_bytes master_transport

slave_transport-IsValid : IsValid slave_transport
slave_transport-IsValid = ground arith

abbrev one_event : List LinEvent
one_event = event 0x3C [] ∷ []

abbrev woken_slave : Transport
woken_slave = record slave_transport {
  rx_queue = record { nad = 0x01; sid = 0xB6; payload = [] } ∷ [];
}

cycle-IsValid_example : IsValid woken_slave
unfolding cycle read_loop receive_from_driver receive_diagnostic receive_frame slave_turn
    check_multi_frame_timeout deliver_message
cycle-IsValid_example =
    cycle-IsValid short_frames short_frames-GivesLinFrames true 3 slave_transport woken_slave
      one_event [] slave_transport-IsValid refl

execute_ends_example : is_some (execute playing 3 slave_transport two_frames) ≡ true
execute_ends_example =
    execute_ends playing playing-Drains 3 slave_transport two_frames (omega arith)

abbrev sent : LinEvent
sent = event 0x3D (0x01 ∷ 0x01 ∷ 0xF6 ∷ [])

abbrev confirming : Transport
confirming = record slave_transport { tx_queue = sent ∷ []; scheduled_tx_event = some sent }

abbrev confirmation : LinEvent
confirmation = record sent { direction = tx }

abbrev zero_sizes : TransportConfig
zero_sizes = record slave_transport.config { tx_queue_size = pos 0; rx_queue_size = pos 0 }
