-- ===== src/Drivers/Toomoss/Traffic.antt =====
-- Reading and writing LIN frames in driver/toomoss.go.
use linbuskit.Base.{
  ℕ, ◌+◌, ◌%◌, List, [], ◌∷◌, Option, none, some, not, ◌||◌, ltb, leb, ◌==◌, if◌then◌else◌, length,
  take, Result, ok, err, ℤ, pos_part, is_nonpositive, min, copy,
}
use linbuskit.Lin.{LinEvent, classic_checksum, enhanced_checksum, rx, tx}
use linbuskit.Transport.Config.{millisecond, master_diagnostic_frame_id, slave_diagnostic_frame_id}
use linbuskit.Simulation.{event_queue, set_queue}
use linbuskit.Drivers.Action.{raise, raise_if, guard, gets, modify, pure, ◌>>=◌, ◌>>◌}
use linbuskit.Drivers.Action.Repeat.{Turn, again, over, repeat}
use linbuskit.Drivers.Toomoss.Device.{
  LinExMsg, zero_msg, ToomossApi, ToomossError, returned, not_loaded, empty_messages,
  different_lengths, not_supported, event_channel_full, no_slave_response, break_failed,
  slice_panic, invalid_payload_length, invalid_frame_id, write_failed, sync_error, Session, Method,
  call, is_negative_word, event_capacity, validate_channel, enqueue_event,
}
use linbuskit.Drivers.Toomoss.Usb.{system_error}

abbrev pub msg_type_mw : ℕ
msg_type_mw = 1

abbrev pub msg_type_mr : ℕ
msg_type_mr = 2

abbrev pub msg_type_sw : ℕ
msg_type_sw = 3

abbrev pub msg_type_bk : ℕ
msg_type_bk = 5

abbrev pub check_std : ℕ
check_std = 0

abbrev pub check_ext : ℕ
check_ext = 1

abbrev pub lin_ex_slave_get_data_max_frames : ℕ
lin_ex_slave_get_data_max_frames = 512

unfoldable pub toomoss_event : LinExMsg → ℕ → ℕ → LinEvent
toomoss_event m channel now = record {
  channel = channel;
  event_id = m.pid % 64;
  event_payload = take (min m.data_len 8) m.data_bytes;
  checksum_type = if m.check_type == check_std then classic_checksum else enhanced_checksum;
  direction = if m.msg_type == msg_type_sw then tx else rx;
  timestamp = now;
}

unfoldable pub check_type_of : ℕ → ℕ
check_type_of frame_id =
    if frame_id == master_diagnostic_frame_id || frame_id == slave_diagnostic_frame_id
    then check_std
    else check_ext

-- The message that writes a frame.
abbrev pub write_request : ℕ → List ℕ → LinExMsg
write_request frame_id payload = record zero_msg {
  msg_type = msg_type_mw;
  data_len = length payload;
  pid = frame_id;
  data_bytes = copy zero_msg.data_bytes payload;
  check_type = check_type_of frame_id;
}

-- The message that asks a slave.
abbrev pub read_request : ℕ → LinExMsg
read_request frame_id = record zero_msg { msg_type = msg_type_mr; pid = frame_id }

abbrev pub break_request : LinExMsg
break_request = record zero_msg { msg_type = msg_type_bk; timestamp = 20 }

-- `outMsg[0]`
abbrev pub first_of : List LinExMsg → LinExMsg
first_of [] = zero_msg
first_of (m ∷ rest) = m

abbrev pub Outcome : Type 0
Outcome = Result ToomossError (Option LinEvent)

-- What LinMasterSync returns: a word, an error beside it, and what was written to `outMsg`.
pub record Sync : Type 0 where
  pub ret : ℕ
  pub error : Option ToomossError
  pub out : List LinExMsg

-- A failed check gives the word zero, and leaves `outMsg` as it was.
abbrev pub refused_sync :
    {S A : Type 0} → List LinExMsg → Result ToomossError A × S → (A → S → Sync × S) → Sync × S
refused_sync out_msg (err e, s) next = (record { ret = 0; error = some e; out = out_msg }, s)
refused_sync out_msg (ok a, s) next = next a s

module _ {S : Type 0} (api : ToomossApi S) where
  -- The system's error code is returned as an error also where it is zero.
  abbrev pub synced : List LinExMsg → ℕ → Session S → Sync × Session S
  synced msg channel s =
      let (r, l) = api.master_sync channel msg s.usb.library in
      (
        record { ret = r.0; error = some (sync_error r.1); out = r.2 },
        record s { usb = record s.usb { library = l } },
      )

  abbrev pub check_sync : List LinExMsg → List LinExMsg → ℕ → Method S (Unit {0})
  check_sync msg out_msg channel = do
    raise_if (length out_msg == 0 || length msg == 0) empty_messages
    raise_if (not (length msg == length out_msg)) different_lengths
    validate_channel channel

  unfoldable pub lin_master_sync : List LinExMsg → List LinExMsg → ℕ → Session S → Sync × Session S
  unfolding validate_channel
  lin_master_sync msg out_msg channel s =
      refused_sync out_msg (check_sync msg out_msg channel s) (λ a. synced msg channel)

  -- A call with one message.
  abbrev pub sync_one : LinExMsg → ℕ → Method S Sync
  sync_one m channel s =
      let (r, s') = lin_master_sync (m ∷ []) (zero_msg ∷ []) channel s in (ok r, s')

  -- `payload[:outMsg[0].DataLen]` of an array of eight
  abbrev pub check_slice : Sync → Method S (Unit {0})
  check_slice r = raise_if (ltb 8 (first_of r.out).data_len) slice_panic

  unfoldable pub write_message : LinEvent → ℕ → Method S (Unit {0})
  unfolding lin_master_sync enqueue_event
  write_message e channel = do
    raise_if (ltb 8 (length e.event_payload)) (invalid_payload_length (length e.event_payload))
    r ← sync_one (write_request e.event_id e.event_payload) channel
    raise_if (r.ret == 0) (write_failed r.ret)
    check_slice r
    modify (λ s.
        enqueue_event channel
          (record e { channel = channel; direction = tx; timestamp = api.now s.usb.library }) s)

  unfoldable pub master_write : ℕ → List ℕ → ℕ → Method S (Unit {0})
  unfolding lin_master_sync
  master_write frame_id payload channel = do
    raise_if (ltb 8 (length payload)) (invalid_payload_length (length payload))
    r ← sync_one (write_request frame_id payload) channel
    raise_if (r.ret == 0) (write_failed r.ret)
    check_slice r

  unfoldable pub master_read : ℕ → ℕ → Method S (List ℕ)
  unfolding lin_master_sync
  master_read frame_id channel = do
    raise_if (ltb 0x3F frame_id) (invalid_frame_id frame_id)
    r ← sync_one (read_request frame_id) channel
    raise_if (r.ret == 0) no_slave_response
    pure (take (min (first_of r.out).data_len 8) (first_of r.out).data_bytes)

  -- The event of a response, which goes into the queue unless that is full.
  abbrev pub queue_response : ℕ → ℕ → List ℕ → Method S (Unit {0})
  queue_response frame_id channel payload = do
    q ← gets (λ s. event_queue channel s.device.event_chans)
    raise_if (not (ltb (length q) event_capacity)) event_channel_full
    modify (λ s.
        enqueue_event channel
          (record {
            channel = channel;
            event_id = frame_id;
            event_payload = payload;
            checksum_type = classic_checksum;
            direction = rx;
            timestamp = api.now s.usb.library;
          })
          s)

  abbrev pub on_response : ℕ → ℕ → Sync → Method S (Unit {0})
  on_response frame_id channel r =
      if r.ret == 0
      then pure tt
      else if min (first_of r.out).data_len 8 == 0
      then pure tt
      else queue_response frame_id channel
          (take (min (first_of r.out).data_len 8) (first_of r.out).data_bytes)

  -- No response, like a call that was refused, is no error. The checksum kind is that of a Go zero.
  unfoldable pub request_slave_response : ℕ → ℕ → Method S (Unit {0})
  unfolding lin_master_sync enqueue_event
  request_slave_response frame_id channel =
      sync_one (read_request frame_id) channel >>= on_response frame_id channel

  unfoldable pub schedule_slave_response : LinEvent → ℕ → Method S (Unit {0})
  schedule_slave_response e channel = raise not_supported

  unfoldable pub lin_break : ℕ → Method S (Unit {0})
  unfolding lin_master_sync
  lin_break channel = do r ← sync_one break_request channel; raise_if (r.ret == 0) break_failed

  unfoldable pub lin_ex_slave_get_data : ℕ → Method S (List LinExMsg)
  unfolding validate_channel
  lin_ex_slave_get_data channel = do
    there ← gets (λ s. s.usb.procs.slave_get_data)
    raise_if (not there) (not_loaded "LIN_EX_SlaveGetData")
    validate_channel channel
    r ← call (api.slave_get_data channel)
    guard (system_error "LIN_EX_SlaveGetData" r.1)
    raise_if (is_negative_word r.0) (returned "LIN_EX_SlaveGetData" r.0)
    pure (take (min r.0 lin_ex_slave_get_data_max_frames) r.2)

  -- The messages behind the first go into the queue, as long as there is room.
  unfoldable pub queue_messages : List LinExMsg → ℕ → Session S → Session S
  unfolding enqueue_event toomoss_event
  queue_messages [] channel s = s
  queue_messages (m ∷ rest) channel s =
      queue_messages rest channel
        (enqueue_event channel (toomoss_event m channel (api.now s.usb.library)) s)

  -- Nothing there: pause, unless the time is up.
  abbrev pub pause : ℤ → ℕ → Session S → Turn Outcome × Session S
  pause timeout deadline s =
      if is_nonpositive timeout || leb deadline (api.now s.usb.library)
      then (over (ok none), s)
      else (again, record s { usb = record s.usb { library = api.wait millisecond s.usb.library } })

  abbrev pub on_messages :
      ℤ → ℕ → ℕ → Result ToomossError (List LinExMsg) × Session S → Turn Outcome × Session S
  on_messages timeout deadline channel (err e, s) = (over (err e), s)
  on_messages timeout deadline channel (ok [], s) = pause timeout deadline s
  on_messages timeout deadline channel (ok (m ∷ rest), s) =
      let s' = queue_messages rest channel s in
      (over (ok (some (toomoss_event m channel (api.now s'.usb.library)))), s')

  -- A queued event comes first.
  abbrev pub read_queued : ℤ → ℕ → ℕ → List LinEvent → Session S → Turn Outcome × Session S
  read_queued timeout deadline channel [] s =
      on_messages timeout deadline channel (lin_ex_slave_get_data channel s)
  read_queued timeout deadline channel (e ∷ rest) s = (
    over (ok (some e)),
    record s {
      device = record s.device { event_chans = set_queue channel rest s.device.event_chans };
    },
  )

  unfoldable pub read_turn : ℤ → ℕ → ℕ → Session S → Turn Outcome × Session S
  unfolding lin_ex_slave_get_data queue_messages
  read_turn timeout deadline channel s =
      read_queued timeout deadline channel (event_queue channel s.device.event_chans) s

  abbrev pub read_checked :
      ℕ → ℤ → ℕ → Result ToomossError (Unit {0}) × Session S → Option (Outcome × Session S)
  read_checked fuel timeout channel (err e, s) = some (err e, s)
  read_checked fuel timeout channel (ok a, s) =
      repeat (read_turn timeout (api.now s.usb.library + pos_part timeout) channel) fuel s

  unfoldable pub read_event : ℕ → ℤ → ℕ → Session S → Option (Outcome × Session S)
  read_event fuel timeout channel s = read_checked fuel timeout channel (validate_channel channel s)
