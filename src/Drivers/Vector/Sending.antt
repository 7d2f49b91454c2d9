-- ===== src/Drivers/Vector/Sending.antt =====
-- Sending frames in driver/vector.go, and the calls for one channel or for the receive queue.
use linbuskit.Base.{ℕ, List, Option, none, some, ◌||◌, ltb, if◌then◌else◌, length, ok, ℤ, copy}
use linbuskit.Lin.{LinEvent, ChecksumType}
use linbuskit.Drivers.Action.{gets, raise_if, guard, pure, ◌>>=◌, ◌>>◌}
use linbuskit.Drivers.Pcan.{FrameError, validate_vector_event, is_diagnostic, is_classic}
use linbuskit.Drivers.Pcan.Traffic.{no_data}
use linbuskit.Drivers.Vector.Device.{
  VectorApi, VectorChannel, VectorError, frame_error, lookup, Method, vector_lin_master,
  vector_lin_slave, failure_of, status_args, validate_open, validate_channel,
  validate_mode_and_channel,
}

abbrev pub vector_lin_slave_on : ℕ
vector_lin_slave_on = 0xFF

abbrev pub vector_lin_slave_off : ℕ
vector_lin_slave_off = 0

unfoldable pub vector_lin_calc_checksum : ℕ → ChecksumType → ℕ
vector_lin_calc_checksum frame_id checksum =
    if is_diagnostic frame_id || is_classic checksum then 0x100 else 0x200

abbrev pub frame_failure : Option FrameError → Option VectorError
frame_failure none = none
frame_failure (some e) = some (frame_error e)

abbrev pub mask_of : Option VectorChannel → ℕ
mask_of none = 0
mask_of (some info) = info.mask

-- The flags and the frame ID for the wake-up frame, if one is given.
abbrev pub sleep_flags : Option ℕ → ℕ × ℕ
sleep_flags none = (1, 0)
sleep_flags (some frame_id) = (3, frame_id)

abbrev pub sleep_error : Option ℕ → Option VectorError
sleep_error none = none
sleep_error (some frame_id) =
    if ltb 0x3F frame_id then some (frame_error (FrameError.invalid_frame_id frame_id)) else none

module _ {S : Type 0} (api : VectorApi S) where
  -- `linSetSlaveData`, `linSwitchSlaveMode` and `linSendRequestForID` on the channel's mask
  unfoldable pub lin_set_slave_data : ℕ → ℕ → List ℕ → ℕ → Method S (Unit {0})
  unfolding status_args
  lin_set_slave_data mask frame_id payload checksum v =
      status_args "xlLinSetSlave"
        (api.lin_set_slave v.port_handle mask frame_id (copy no_data payload) (length payload)
          checksum)
        v

  unfoldable pub lin_switch_slave_mode : ℕ → ℕ → ℕ → Method S (Unit {0})
  unfolding status_args
  lin_switch_slave_mode mask frame_id mode v =
      status_args "xlLinSwitchSlave" (api.lin_switch_slave v.port_handle mask frame_id mode) v

  unfoldable pub lin_send_request_for_id : ℕ → ℕ → Method S (Unit {0})
  unfolding status_args
  lin_send_request_for_id mask frame_id v =
      status_args "xlLinSendRequest" (api.lin_send_request v.port_handle mask frame_id) v

  abbrev pub channel_mask_of : ℕ → Method S ℕ
  channel_mask_of channel = gets (λ v. mask_of (lookup channel v.channel_info))

  unfoldable pub write_message : LinEvent → ℕ → Method S (Unit {0})
  unfolding validate_mode_and_channel validate_open lin_set_slave_data lin_switch_slave_mode
      lin_send_request_for_id
  write_message e channel = do
    guard (frame_failure (validate_vector_event (some e)))
    validate_mode_and_channel vector_lin_master channel
    validate_open
    mask ← channel_mask_of channel
    lin_set_slave_data mask e.event_id e.event_payload
        (vector_lin_calc_checksum e.event_id e.checksum_type)
    lin_switch_slave_mode mask e.event_id vector_lin_slave_on
    lin_send_request_for_id mask e.event_id

  unfoldable pub schedule_slave_response : LinEvent → ℕ → Method S (Unit {0})
  unfolding validate_mode_and_channel validate_open lin_set_slave_data lin_switch_slave_mode
  schedule_slave_response e channel = do
    guard (frame_failure (validate_vector_event (some e)))
    validate_mode_and_channel vector_lin_slave channel
    validate_open
    mask ← channel_mask_of channel
    lin_set_slave_data mask e.event_id e.event_payload
        (vector_lin_calc_checksum e.event_id e.checksum_type)
    lin_switch_slave_mode mask e.event_id vector_lin_slave_on

  unfoldable pub request_slave_response : ℕ → ℕ → Method S (Unit {0})
  unfolding validate_mode_and_channel validate_open lin_switch_slave_mode lin_send_request_for_id
  request_slave_response frame_id channel = do
    raise_if (ltb 0x3F frame_id) (frame_error (FrameError.invalid_frame_id frame_id))
    validate_mode_and_channel vector_lin_master channel
    validate_open
    mask ← channel_mask_of channel
    lin_switch_slave_mode mask frame_id vector_lin_slave_off
    lin_send_request_for_id mask frame_id

  unfoldable pub wake_up : ℕ → Method S (Unit {0})
  unfolding validate_channel validate_open status_args
  wake_up channel = do
    validate_channel channel
    validate_open
    v ← gets (λ v. v)
    status_args "xlLinWakeUp"
        (api.lin_wake_up v.port_handle (mask_of (lookup channel v.channel_info)))

  unfoldable pub set_sleep_mode : ℕ → Option ℕ → Method S (Unit {0})
  unfolding validate_channel validate_open status_args
  set_sleep_mode channel wakeup_id = do
    validate_channel channel
    guard (sleep_error wakeup_id)
    validate_open
    v ← gets (λ v. v)
    status_args "xlLinSetSleepMode" (
        api.lin_set_sleep_mode v.port_handle (mask_of (lookup channel v.channel_info))
          (sleep_flags wakeup_id).0 (sleep_flags wakeup_id).1)

  unfoldable pub flush_receive_queue : Method S (Unit {0})
  unfolding validate_open status_args
  flush_receive_queue = do
    validate_open
    port ← gets (λ v. v.port_handle)
    status_args "xlFlushReceiveQueue" (api.flush_receive_queue port)

  abbrev pub queue_level : Method S (ℕ × ℤ)
  queue_level v =
      let (r, s') = api.get_queue_level v.port_handle v.library in (ok r, record v { library = s' })

  unfoldable pub receive_queue_level : Method S ℤ
  unfolding validate_open
  receive_queue_level = do
    validate_open
    r ← queue_level
    guard (failure_of "xlGetReceiveQueueLevel" r.0)
    pure r.1
