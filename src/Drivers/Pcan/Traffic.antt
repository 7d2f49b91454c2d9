-- ===== src/Drivers/Pcan/Traffic.antt =====
-- Reading and writing frames in driver/pcan.go.
use linbuskit.Base.{
  ℕ, ◌+◌, ◌-◌, List, [], ◌∷◌, Option, none, some, not, ◌&&◌, ◌||◌, ltb, leb, ◌==◌, if◌then◌else◌,
  length, Result, ok, err, ℤ, pos_part, is_nonpositive, min, copy,
}
use linbuskit.Lin.{LinEvent, enhanced_checksum, tx}
use linbuskit.Transport.Config.{millisecond}
use linbuskit.Simulation.{event_queue, set_queue}
use linbuskit.Drivers.Action.{gets, raise_if, guard, modify, ◌>>=◌, ◌>>◌}
use linbuskit.Drivers.Action.Repeat.{Turn, again, over, repeat}
use linbuskit.Drivers.Pcan.{
  FrameError, validate_pcan_event, pcan_checksum_type, protected_lin_id, default_pcan_frame_length,
  pcan_event, pcan_direction_publisher,
}
use linbuskit.Drivers.Pcan.Device.{
  Pcan, PcanApi, PcanError, frame_error, call_failed, PcanMessage, PcanFrameEntry, PcanReceived,
  find, Method, pcan_call, pcan_get, validate_state, validate_channel, hardware_of,
  validate_mode_and_channel, enqueue_event, pcan_master, pcan_slave, pcan_error_ok,
  pcan_error_receive_queue_empty,
}

abbrev pub pcan_direction_subscriber : ℕ
pcan_direction_subscriber = 2

abbrev pub no_data : List ℕ
no_data = 0 ∷ 0 ∷ 0 ∷ 0 ∷ 0 ∷ 0 ∷ 0 ∷ 0 ∷ []

abbrev pub pcan_read_poll_delay : ℕ
pcan_read_poll_delay = millisecond

abbrev pub frame_failure : Option FrameError → Option PcanError
frame_failure none = none
frame_failure (some e) = some (frame_error e)

-- One LIN_Read: `none` is an empty queue.
abbrev pub read_result : ℕ × PcanReceived → Result PcanError (Option PcanReceived)
read_result (code, m) =
    if code == pcan_error_receive_queue_empty
    then ok none
    else if code == pcan_error_ok
    then ok (some m)
    else err (call_failed "LIN_Read" code)

-- The event of a received message, if it is one of a configured channel and without an error.
abbrev pub event_on : Option ℕ → PcanReceived → ℕ → Option LinEvent
event_on none m now = none
event_on (some channel) m now =
    if not (m.kind == 0)
    then none
    else if not (m.error_flags == 0)
    then none
    else some (pcan_event m.message channel now)

abbrev pub Outcome : Type 0
Outcome = Result PcanError (Option LinEvent)

-- What is done with an event off the hardware.
abbrev pub pass_on : {S : Type 0} → ℕ → Option LinEvent → Pcan S → Turn Outcome × Pcan S
pass_on channel none p = (again, p)
pass_on channel (some e) p =
    if e.channel == channel then (over (ok (some e)), p) else (again, enqueue_event e.channel e p)

abbrev pub published : LinEvent → PcanMessage
published e = record {
  frame_id = protected_lin_id e.event_id;
  byte_count = length e.event_payload;
  direction = pcan_direction_publisher;
  checksum_type = pcan_checksum_type e.event_id e.checksum_type;
  data_bytes = copy no_data e.event_payload;
  checksum = 0;
}

abbrev pub frame_entry : LinEvent → PcanFrameEntry
frame_entry e = record {
  frame_id = e.event_id;
  byte_count = length e.event_payload;
  direction = pcan_direction_publisher;
  checksum_type = pcan_checksum_type e.event_id e.checksum_type;
  flags = 3;
  initial_data = copy no_data e.event_payload;
}

module _ {S : Type 0} (api : PcanApi S) where
  unfoldable pub read_one : Method S (Option PcanReceived)
  unfolding validate_state
  read_one = do
    validate_state
    (λ p. let (r, s') = api.read p.client p.library in (read_result r, record p { library = s' }))

  -- Nothing on the hardware: pause, unless the time is up.
  abbrev pub pause : ℤ → ℕ → Pcan S → Turn Outcome × Pcan S
  pause timeout deadline p =
      let now = api.now p.library in
      if is_nonpositive timeout || leb deadline now then (over (ok none), p) else (
        again,
        record p { library = api.wait (min (deadline - now) pcan_read_poll_delay) p.library },
      )

  abbrev pub on_read :
      ℤ → ℕ → ℕ → Result PcanError (Option PcanReceived) × Pcan S → Turn Outcome × Pcan S
  on_read timeout deadline channel (err e, p) = (over (err e), p)
  on_read timeout deadline channel (ok none, p) = pause timeout deadline p
  on_read timeout deadline channel (ok (some m), p) =
      pass_on channel (event_on (find m.hardware p.channel_by_hardware) m (api.now p.library)) p

  abbrev pub read_hardware : ℤ → ℕ → ℕ → Pcan S → Turn Outcome × Pcan S
  read_hardware timeout deadline channel p =
      if not (is_nonpositive timeout) && leb deadline (api.now p.library)
      then (over (ok none), p)
      else on_read timeout deadline channel (read_one p)

  -- A queued event comes first.
  abbrev pub read_queued : ℤ → ℕ → ℕ → List LinEvent → Pcan S → Turn Outcome × Pcan S
  read_queued timeout deadline channel [] p = read_hardware timeout deadline channel p
  read_queued timeout deadline channel (e ∷ rest) p =
      (over (ok (some e)), record p { event_chans = set_queue channel rest p.event_chans })

  unfoldable pub read_turn : ℤ → ℕ → ℕ → Pcan S → Turn Outcome × Pcan S
  unfolding read_one enqueue_event
  read_turn timeout deadline channel p =
      read_queued timeout deadline channel (event_queue channel p.event_chans) p

  abbrev pub read_checked :
      ℕ → ℤ → ℕ → Result PcanError (Unit {0}) × Pcan S → Option (Outcome × Pcan S)
  read_checked fuel timeout channel (err e, p) = some (err e, p)
  read_checked fuel timeout channel (ok a, p) =
      repeat (read_turn timeout (api.now p.library + pos_part timeout) channel) fuel p

  unfoldable pub read_event : ℕ → ℤ → ℕ → Pcan S → Option (Outcome × Pcan S)
  read_event fuel timeout channel p = read_checked fuel timeout channel (validate_channel channel p)

  -- `write`: the library computes the checksum, then the message is sent.
  unfoldable pub write : PcanMessage → ℕ → Method S (Unit {0})
  unfolding validate_state hardware_of pcan_call pcan_get
  write message channel = do
    validate_state
    hardware ← hardware_of channel
    client ← gets (λ p. p.client)
    summed ← pcan_get "LIN_CalculateChecksum" (api.calculate_checksum message)
    pcan_call "LIN_Write" (api.write client hardware summed)

  -- The written frame comes back as a sent event.
  unfoldable pub write_message : LinEvent → ℕ → Method S (Unit {0})
  unfolding write validate_mode_and_channel enqueue_event
  write_message e channel = do
    guard (frame_failure (validate_pcan_event (some e)))
    validate_mode_and_channel pcan_master channel
    write (published e) channel
    modify (λ p.
        enqueue_event channel
          (record e { channel = channel; direction = tx; timestamp = api.now p.library }) p)

  unfoldable pub request_slave_response : ℕ → ℕ → Method S (Unit {0})
  unfolding write validate_mode_and_channel
  request_slave_response frame_id channel = do
    raise_if (ltb 0x3F frame_id) (frame_error (FrameError.invalid_frame_id frame_id))
    validate_mode_and_channel pcan_master channel
    write
        (record {
          frame_id = protected_lin_id frame_id;
          byte_count = default_pcan_frame_length frame_id;
          direction = pcan_direction_subscriber;
          checksum_type = pcan_checksum_type frame_id enhanced_checksum;
          data_bytes = no_data;
          checksum = 0;
        })
        channel

  unfoldable pub schedule_slave_response : LinEvent → ℕ → Method S (Unit {0})
  unfolding validate_mode_and_channel validate_state hardware_of pcan_call
  schedule_slave_response e channel = do
    guard (frame_failure (validate_pcan_event (some e)))
    validate_mode_and_channel pcan_slave channel
    validate_state
    hardware ← hardware_of channel
    client ← gets (λ p. p.client)
    pcan_call "LIN_SetFrameEntry" (api.set_frame_entry client hardware (frame_entry e))
    pcan_call "LIN_UpdateByteArray" (
        api.update_byte_array client hardware e.event_id 0 (length e.event_payload)
          (copy no_data e.event_payload))
