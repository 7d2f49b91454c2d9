-- ===== src/Drivers/Vector/Traffic.antt =====
-- Reading frames in driver/vector.go.
use linbuskit.Base.{
  ℕ, ◌+◌, ◌-◌, List, [], ◌∷◌, Option, none, some, Bool, not, ◌&&◌, ◌||◌, ltb, leb, ◌==◌,
  if◌then◌else◌, take, Result, ok, err, ℤ, pos_part, is_nonpositive, min,
}
use linbuskit.Lin.{LinEvent, ChecksumType, rx, tx}
use linbuskit.Transport.Config.{millisecond}
use linbuskit.Simulation.{event_queue, set_queue}
use linbuskit.Drivers.Action.{◌>>◌}
use linbuskit.Drivers.Action.Repeat.{Turn, again, over, repeat}
use linbuskit.Drivers.Pcan.{bit}
use linbuskit.Drivers.Pcan.Device.{find}
use linbuskit.Drivers.Vector.Device.{
  Vector, VectorApi, VectorError, call_failed, received_id, received_dlc, checksum_error, XlEvent,
  XlLinMessage, Method, xl_status, vector_success, vector_queue_is_empty, validate_open,
  validate_channel, enqueue_event,
}

abbrev pub vector_lin_message_tag : ℕ
vector_lin_message_tag = 20

abbrev pub vector_receive_poll_delay : ℕ
vector_receive_poll_delay = millisecond

-- A bit of the flags is set. The flags of a failed checksum are 0x81, both bits; that of a frame of
-- one's own is 0x40.
abbrev pub has_bit : ℕ → ℕ → Bool
has_bit k flags = bit k flags == 1

abbrev pub has_crc_error : ℕ → Bool
has_crc_error flags = has_bit 0 flags && has_bit 7 flags

unfoldable pub decode_vector_lin_event :
    XlLinMessage → ℕ → (ℕ → ChecksumType) → ℕ → Result VectorError LinEvent
decode_vector_lin_event m logical kinds now =
    if ltb 0x3F m.frame_id
    then err (received_id m.frame_id)
    else if ltb 8 m.dlc
    then err (received_dlc m.dlc)
    else if has_crc_error m.flags
    then err (checksum_error m.frame_id)
    else ok (record {
      channel = logical;
      event_id = m.frame_id;
      event_payload = take m.dlc m.data_bytes;
      checksum_type = kinds m.frame_id;
      direction = if has_bit 6 m.flags then tx else rx;
      timestamp = now;
    })

abbrev pub Outcome : Type 0
Outcome = Result VectorError (Option LinEvent)

-- What the library gave: nothing, or something that is not a frame of a configured channel.
abbrev pub some_event : Result VectorError LinEvent → Outcome
some_event (err e) = err e
some_event (ok e) = ok (some e)

abbrev pub event_of : Option ℕ → XlEvent → (ℕ → ChecksumType) → ℕ → Outcome
event_of none m kinds now = ok none
event_of (some logical) m kinds now =
    if m.tag == vector_lin_message_tag
    then some_event (decode_vector_lin_event m.message logical kinds now)
    else ok none

module _ {S : Type 0} (api : VectorApi S) where
  -- What xlReceive came to. The driver looks at an event and at an empty queue; what is neither is
  -- treated like an empty queue.
  abbrev pub received : ℕ × (ℕ × XlEvent) → Vector S → Outcome
  received (code, (count, m)) v =
      if xl_status code == vector_queue_is_empty || count == 0
      then ok none
      else if not (xl_status code == vector_success)
      then err (call_failed "xlReceive" (xl_status code))
      else event_of (find m.channel_index v.logical_by_index) m v.checksum_table (api.now v.library)

  abbrev pub receive_one : Method S (Option LinEvent)
  receive_one v =
      let (r, s') = api.receive v.port_handle v.library in
      let v' = record v { library = s' } in (received r v', v')

  unfoldable pub read_one : Method S (Option LinEvent)
  unfolding validate_open decode_vector_lin_event
  read_one = do validate_open; receive_one

  -- No event: pause, unless the time is up.
  abbrev pub pause : ℤ → ℕ → Vector S → Turn Outcome × Vector S
  pause timeout deadline v =
      let now = api.now v.library in
      if is_nonpositive timeout || leb deadline now then (over (ok none), v) else (
        again,
        record v { library = api.wait (min (deadline - now) vector_receive_poll_delay) v.library },
      )

  abbrev pub on_read : ℤ → ℕ → ℕ → Outcome × Vector S → Turn Outcome × Vector S
  on_read timeout deadline channel (err e, v) = (over (err e), v)
  on_read timeout deadline channel (ok none, v) = pause timeout deadline v
  on_read timeout deadline channel (ok (some e), v) =
      if e.channel == channel then (over (ok (some e)), v) else (again, enqueue_event e.channel e v)

  -- A queued event comes first.
  abbrev pub read_queued : ℤ → ℕ → ℕ → List LinEvent → Vector S → Turn Outcome × Vector S
  read_queued timeout deadline channel [] v = on_read timeout deadline channel (read_one v)
  read_queued timeout deadline channel (e ∷ rest) v =
      (over (ok (some e)), record v { event_chans = set_queue channel rest v.event_chans })

  unfoldable pub read_turn : ℤ → ℕ → ℕ → Vector S → Turn Outcome × Vector S
  unfolding read_one enqueue_event
  read_turn timeout deadline channel v =
      read_queued timeout deadline channel (event_queue channel v.event_chans) v

  abbrev pub read_checked :
      ℕ → ℤ → ℕ → Result VectorError (Unit {0}) × Vector S → Option (Outcome × Vector S)
  read_checked fuel timeout channel (err e, v) = some (err e, v)
  read_checked fuel timeout channel (ok a, v) =
      repeat (read_turn timeout (api.now v.library + pos_part timeout) channel) fuel v

  unfoldable pub read_event : ℕ → ℤ → ℕ → Vector S → Option (Outcome × Vector S)
  read_event fuel timeout channel v = read_checked fuel timeout channel (validate_channel channel v)
