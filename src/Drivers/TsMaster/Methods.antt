-- ===== src/Drivers/TsMaster/Methods.antt =====
-- The methods of driver/tsmaster.go behind its constructor: receiveLoop, ReadEvent and the calls that
-- transmit. The TSMaster library is a parameter: functions over a state `S` of its own, with the
-- status that they return. A nil receiver is not a value here.
use linbuskit.Base.{
  ℕ, ◌*◌, ◌%◌, List, [], ◌∷◌, Option, none, some, Bool, true, false, not, ◌||◌, ltb, ◌==◌,
  if◌then◌else◌, length, take, copy, min, ok, err, ℤ, pos_part, is_nonpositive,
}
use linbuskit.Lin.{LinEvent, tx}
use linbuskit.Transport.Config.{millisecond}
use linbuskit.Transport.State.{send_or_drop}
use linbuskit.Simulation.{event_queue, set_queue}
use linbuskit.Drivers.Action.{Action, raise, raise_if, guard, gets, modify, ◌>>=◌, ◌>>◌}
use linbuskit.Drivers.Channels.{occurs}
use linbuskit.Drivers.TsMaster.{TsMasterLin, TsMaster, queue_event, dispatch_lin, no_data}

pub data TsMasterError : Type 0 where
  driver_closed not_initialized not_supported no_channel : TsMasterError
  invalid_channel invalid_payload_length transmit_failed : ℕ → TsMasterError
  receive_failed : ℕ → ℕ → TsMasterError

-- tsapp_transmit_lin_async, with the byte for the channel, and tsfifo_receive_lin_msgs, with the room
-- for messages and the channel; of the system the clock and a pause.
pub record TsMasterApi (S : Type 0) : Type 0 where
  pub transmit : ℕ → TsMasterLin → S → ℕ × S
  pub receive_msgs : ℕ → ℕ → S → (ℕ × (ℤ × List TsMasterLin)) × S
  pub now : S → ℕ
  pub wait : ℕ → S → S

-- `has_transmit` is whether `transmitProc` is not nil. `errors` is what waits in `errCh`, `frames` has
-- the queues and the last frame, `library` is the state behind the foreign functions.
pub record TsMasterDevice (S : Type 0) : Type 0 where
  pub connected : Bool
  pub has_transmit : Bool
  pub channels : List ℕ
  pub errors : List TsMasterError
  pub frames : TsMaster
  pub library : S

abbrev pub Method : Type 0 → Type 0 → Type 0
Method S A = Action (TsMasterDevice S) TsMasterError A

abbrev pub rx_buffer_capacity : ℕ
rx_buffer_capacity = 64

abbrev pub error_capacity : ℕ
error_capacity = 32

-- A message to transmit, with `FErrStatus` zero.
abbrev pub outgoing : ℕ → ℕ → List ℕ → TsMasterLin
outgoing properties frame_id payload = record {
  dlc = length payload;
  identifier = frame_id;
  properties = properties;
  err_status = 0;
  data_bytes = copy no_data payload;
}

abbrev pub channel_failure : Bool → List ℕ → ℕ → Option TsMasterError
channel_failure false channels channel = some driver_closed
channel_failure true channels channel =
    if occurs channel channels then none else some (invalid_channel channel)

abbrev pub head_of : List LinEvent → Option LinEvent
head_of [] = none
head_of (e ∷ rest) = some e

abbrev pub tail_of : List LinEvent → List LinEvent
tail_of [] = []
tail_of (e ∷ rest) = rest

-- The frames of one read from the library, at one time.
abbrev pub dispatch_all : List TsMasterLin → ℕ → ℕ → TsMaster → TsMaster
dispatch_all [] channel now t = t
dispatch_all (m ∷ rest) channel now t = dispatch_all rest channel now (dispatch_lin m channel now t)

module _ {S : Type 0} where
  unfoldable pub validate_channel : ℕ → Method S (Unit {0})
  validate_channel channel d = guard (channel_failure d.connected d.channels channel) d

  unfoldable pub push_error : TsMasterError → TsMasterDevice S → TsMasterDevice S
  push_error e d = record d { errors = send_or_drop error_capacity d.errors e }

  -- What waits comes first. A frame that comes while a call waits is a later step, so that a wait for
  -- an empty queue comes to nothing, whatever the timeout.
  abbrev pub take_event : ℕ → Method S (Option LinEvent)
  take_event channel d =
      let q = event_queue channel d.frames.queues in
      (
        ok (head_of q),
        record d {
          frames = record d.frames { queues = set_queue channel (tail_of q) d.frames.queues };
        },
      )

  unfoldable pub read_event : ℕ → Method S (Option LinEvent)
  unfolding validate_channel
  read_event channel = do validate_channel channel; take_event channel

  unfoldable pub schedule_slave_response : LinEvent → ℕ → Method S (Unit {0})
  schedule_slave_response e channel = raise not_supported

module _ {S : Type 0} (api : TsMasterApi S) where
  -- `transmitProc.Call`
  abbrev pub transmit_lin : ℕ → TsMasterLin → Method S (Unit {0})
  transmit_lin channel m d =
      let (code, s') = api.transmit (channel % 256) m d.library in
      (if code == 0 then ok tt else err (transmit_failed code), record d { library = s' })

  abbrev pub check_transmit : Method S (Unit {0})
  check_transmit = do there ← gets (λ d. d.has_transmit); raise_if (not there) not_initialized

  unfoldable pub write_message : LinEvent → ℕ → Method S (Unit {0})
  unfolding validate_channel
  write_message e channel = do
    raise_if (ltb 8 (length e.event_payload)) (invalid_payload_length (length e.event_payload))
    check_transmit
    validate_channel channel
    transmit_lin channel (outgoing 1 e.event_id e.event_payload)
    modify (λ d. record d {
      frames =
          queue_event
            (record e { channel = channel; direction = tx; timestamp = api.now d.library })
            d.frames;
    })

  unfoldable pub master_write : ℕ → List ℕ → ℕ → Method S (Unit {0})
  unfolding validate_channel
  master_write frame_id payload channel = do
    raise_if (ltb 8 (length payload)) (invalid_payload_length (length payload))
    check_transmit
    validate_channel channel
    transmit_lin channel (outgoing 1 frame_id payload)

  unfoldable pub request_slave_response : ℕ → ℕ → Method S (Unit {0})
  unfolding validate_channel
  request_slave_response frame_id channel = do
    validate_channel channel
    check_transmit
    transmit_lin channel (record (outgoing 0 frame_id []) { dlc = 8 })

  -- What the library gave for a channel, and whether there were frames.
  abbrev pub on_receive :
      ℕ → ℕ × (ℤ × List TsMasterLin) → TsMasterDevice S → Bool × TsMasterDevice S
  on_receive channel (code, (count, msgs)) d =
      if not (code == 0)
      then (false, push_error (receive_failed channel code) d)
      else if is_nonpositive count
      then (false, d)
      else (
        true,
        record d {
          frames =
              dispatch_all (take (min (pos_part count) rx_buffer_capacity) msgs) (channel % 256)
                (api.now d.library) d.frames;
        },
      )

  abbrev pub receive_channel : ℕ → TsMasterDevice S → Bool × TsMasterDevice S
  receive_channel channel d =
      let (r, s') = api.receive_msgs rx_buffer_capacity channel d.library in
      on_receive channel r (record d { library = s' })

  unfoldable pub receive_channels : List ℕ → TsMasterDevice S → Bool × TsMasterDevice S
  unfolding push_error dispatch_lin
  receive_channels [] d = (false, d)
  receive_channels (channel ∷ rest) d =
      let (here, d') = receive_channel channel d in
      let (further, d'') = receive_channels rest d' in (here || further, d'')

  abbrev pub unless_frames : Bool × TsMasterDevice S → TsMasterDevice S
  unless_frames (true, d) = d
  unless_frames (false, d) = record d { library = api.wait (2 * millisecond) d.library }

  -- One round of receiveLoop.
  unfoldable pub receive_round : TsMasterDevice S → TsMasterDevice S
  unfolding receive_channels
  receive_round d = unless_frames (receive_channels d.channels d)
