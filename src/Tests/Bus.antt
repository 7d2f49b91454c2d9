-- ===== src/Tests/Bus.antt =====
-- Concrete runs of the simulated bus, the presets and functions of the drivers.
use linbuskit.Base.{
  ◌↔◌, ok, ◌≡◌, ℕ, refl, List, [], ◌∷◌, none, some, true, false, arith, is_some, if◌then◌else◌,
  ◌==◌, ◌%◌, ◌≤◌, ◌⊎◌, ◌<◌, ◌+◌, length, Option, Result,
}
use linbuskit.Lin.{LinEvent, DriverError, rx, tx, enhanced_checksum}
use linbuskit.Transport.State.{send_or_drop}
use linbuskit.Transport.Execute.{execute}
use linbuskit.Simulation.{
  EventQueues, Key, Network, push_master, push_all, queue_capacity, seen_as, broadcast,
  schedule_response, lookup_response, master_world, slave_world,
}
use linbuskit.Simulation
use linbuskit.Simulation.Drain.{the_slave, station_world, simulated_rounds_end}
use linbuskit.Simulation.Delivery.{waiting_at, broadcast_reaches, schedule-request}
use linbuskit.Preset.{Preset, Device, close, write}
use linbuskit.Preset.Closing.{call_write, call_close, perform_all, refusals, perform_all-close}
use linbuskit.Preset.Written.{IsWritable, WriteRow, write-WriteRow}
use linbuskit.Drivers.Elins
use linbuskit.Drivers.Elins.{ElinsConfig, normalize_elins_config, with_timeout}
use linbuskit.Drivers.Elins.Accepted.{normalize_elins_config-IsUsable}
use linbuskit.Drivers.Elins.Filters.{ElinsMsg, elins_filter_dev_id, filter_elins_msgs, filtered}
use linbuskit.Drivers.Elins.Compaction.{filter_elins_msgs-filtered}
use linbuskit.Drivers.MasterRead.{Reader, read_master_response}
use linbuskit.Drivers.MasterRead.Ends.{IsDrained, read_master_response_ends}
use linbuskit.Drivers.MasterRead.Payload.{Given, read_master_response-Given}
use linbuskit.Drivers.Pcan.{protected_lin_id}
use linbuskit.Drivers.Pcan.ProtectedId.{is_protected, flip, protected_lin_id_detects}
use linbuskit.Drivers.TsMaster.{TsMasterLin, TsMaster, dispatch_lin}
use linbuskit.Drivers.TsMaster.Dispatch.{Queued, dispatch_lin-Queued}
use linbuskit.Tests.Data.{event, slave_transport, playing}

abbrev single : LinEvent
single = event 0x3C (0x01 ∷ 0x01 ∷ 0xB6 ∷ [])

abbrev bus : Network
bus = record {
  slave_responses = (record { channel = 0; frame_id = 0x3C }, single) ∷ [];
  master_driver = some ((0, single ∷ []) ∷ []);
  slave_drivers = ((0, single ∷ []) ∷ []) ∷ ((1, []) ∷ []) ∷ [];
  clock = 5;
}

simulated_rounds_end_example :
    is_some (execute (station_world (the_slave 0)) 2 slave_transport bus) ≡ true
simulated_rounds_end_example =
    simulated_rounds_end (the_slave 0) 2 slave_transport bus (omega arith)

broadcast_reaches_example : waiting_at 1 0 (broadcast single bus).slave_drivers ≡ (
    if single.channel == 0
    then send_or_drop queue_capacity
        (waiting_at 1 0 bus.slave_drivers)
        (seen_as rx bus.clock single)
    else waiting_at 1 0 bus.slave_drivers)
broadcast_reaches_example = broadcast_reaches 1 0 single bus (omega arith)

schedule-request_example :
    let n' =
      Simulation.request_response single.event_id single.channel (schedule_response single bus) in
    (n'.master_driver ≡ push_master (seen_as rx bus.clock single) bus.master_driver)
    × (n'.slave_drivers ≡ push_all (seen_as tx bus.clock single) bus.slave_drivers)
    × (lookup_response
          (record { channel = single.channel; frame_id = single.event_id })
          n'.slave_responses
        ≡ none)
schedule-request_example = schedule-request single bus

abbrev device : Device (List LinEvent)
device = record { world = playing; close = some (λ s. (none, [])); master_read = none }

abbrev preset : Preset (List LinEvent)
preset = record {
  nad = 0x01;
  channel = 0;
  lin_device = some device;
  client = none;
  is_closed = false;
  close_error = none;
}

perform_all-close_example :
    let (first, o, s') = close (some preset) (single ∷ []) in
    perform_all (call_write 0x10 (1 ∷ []) ∷ call_close ∷ []) o s'
    ≡ (refusals first (call_write 0x10 (1 ∷ []) ∷ call_close ∷ []), o, s')
perform_all-close_example =
    perform_all-close (call_write 0x10 (1 ∷ []) ∷ call_close ∷ []) preset (single ∷ []) refl

write-WriteRow_example :
    WriteRow device 0x3C (1 ∷ 2 ∷ []) preset [] (write 0x3C (1 ∷ 2 ∷ []) (some preset) [])
write-WriteRow_example = write-WriteRow 0x3C (1 ∷ 2 ∷ []) preset device [] refl refl

abbrev patient_read :
    ℕ → ℕ → List LinEvent → Result DriverError (Option LinEvent) × (ℕ × List LinEvent)
patient_read left t [] = (ok none, (t + left, []))
patient_read left t (e ∷ es) = (ok (some e), (t, es))

-- A device that gives the events that it has at once, and without any takes all the time left.
abbrev patient : Reader (ℕ × List LinEvent)
patient = record {
  request = λ id channel s. (none, s);
  read = λ left channel s. patient_read left s.0 s.1;
  now = λ s. s.0;
}

patient-IsDrained : IsDrained patient
patient-IsDrained = record {
  pending = λ s. length s.1;
  event_taken = λ left channel s e h. go s.0 s.1 left e h;
  pending_keeps = λ left channel s. fewer s.0 s.1 left;
  clock_keeps = λ left channel s. later s.0 s.1 left;
  waiting_takes_time = λ left channel s some_left h. waited s.0 s.1 left some_left h;
}
  where
    go :
        (t : ℕ) (es : List LinEvent) (left : ℕ) (e : LinEvent)
        → (patient_read left t es).0 ≡ ok (some e)
        → length (patient_read left t es).1.1 < length es
    go t [] left e h = cc
    go t (x ∷ es) left e h = omega arith

    fewer :
        (t : ℕ) (es : List LinEvent) (left : ℕ) → length (patient_read left t es).1.1 ≤ length es
    fewer t [] left = omega arith
    fewer t (x ∷ es) left = omega arith

    later : (t : ℕ) (es : List LinEvent) (left : ℕ) → t ≤ (patient_read left t es).1.0
    later t [] left = omega arith
    later t (x ∷ es) left = omega arith

    waited :
        (t : ℕ) (es : List LinEvent) (left : ℕ)
        → 0 < left
        → (patient_read left t es).0 ≡ ok none
        → t < (patient_read left t es).1.0
    waited t [] left some_left h = omega arith
    waited t (x ∷ es) left some_left h = cc

abbrev answered : LinEvent
answered = event 0x10 (7 ∷ 8 ∷ [])

read_master_response_ends_example :
    is_some (read_master_response patient 6 0x10 0 3 (0, single ∷ answered ∷ [])) ≡ true
unfolding patient-IsDrained
read_master_response_ends_example =
    read_master_response_ends patient patient-IsDrained 0x10 0 3 6 (0, single ∷ answered ∷ [])
      (omega arith)

read_master_response-Given_example :
    (0x10 ≤ 0x3F)
    × (◌≡◌ {A = Option DriverError} none none)
    × Given patient 0x10 0 3 (0, single ∷ answered ∷ []) (0, []) (7 ∷ 8 ∷ [])
unfolding read_master_response
read_master_response-Given_example =
    read_master_response-Given patient 4 0x10 0 3 (0, single ∷ answered ∷ []) (0, []) (7 ∷ 8 ∷ [])
      refl

protected_lin_id_detects_example :
    (protected_lin_id 0x3C % 64 ≡ 0x3C)
    × (protected_lin_id 0x3C < 256)
    × (is_protected (protected_lin_id 0x3C) ≡ true)
    × (is_protected (flip 4 (protected_lin_id 0x3C)) ≡ false)
protected_lin_id_detects_example = protected_lin_id_detects 0x3C 4 (omega arith) (omega arith)

abbrev reported_frame : TsMasterLin
reported_frame = record {
  dlc = 3;
  identifier = 0x7D;
  properties = 1;
  err_status = 0;
  data_bytes = 1 ∷ 1 ∷ 0xF6 ∷ 0 ∷ 0 ∷ 0 ∷ 0 ∷ 0 ∷ [];
}

abbrev ts_master : TsMaster
ts_master = record { last_frame = none; queues = [] }

dispatch_lin-Queued_example :
    ((dispatch_lin reported_frame 0 1000 ts_master).queues ≡ ts_master.queues)
    ⊎ Queued reported_frame 0 ts_master.queues (dispatch_lin reported_frame 0 1000 ts_master).queues
dispatch_lin-Queued_example = dispatch_lin-Queued reported_frame 0 1000 ts_master (omega arith)

abbrev raw_frame : LinEvent
raw_frame = record answered { direction = tx; checksum_type = enhanced_checksum }

raw_frame_lem : IsWritable 0 raw_frame
raw_frame_lem = record {
  same_channel = refl;
  frame_id = omega arith;
  payload = omega arith;
  direction = refl;
  diagnostic = λ d. ground arith;
  ordinary = λ a b. refl;
}

abbrev elins_config : ElinsConfig
elins_config = record {
  channels = 0 ∷ 3 ∷ [];
  baudrate = 19200;
  res_enable = 1;
  version = 2;
  receive_timeout_us = 0;
}

normalize_elins_config-IsUsable_example :
    (normalize_elins_config elins_config ≡ ok (record elins_config { receive_timeout_us = 1000 }))
    ↔ (Elins.Accepted.IsUsable elins_config
        × (with_timeout elins_config ≡ record elins_config { receive_timeout_us = 1000 }))
normalize_elins_config-IsUsable_example =
    normalize_elins_config-IsUsable elins_config (record elins_config { receive_timeout_us = 1000 })

abbrev elins_msg : ℕ → ElinsMsg
elins_msg id = record {
  data_len = 0;
  break_bits = 13;
  status = 0;
  flags = 0;
  sync = 0x55;
  time_stamp_high = 0;
  msg_send_times = 1;
  time_stamp = 0;
  cmd_code = 3;
  dev_id = id;
  reg_addr = 0x100;
  crc16 = 0;
  data_bytes = [];
  ack_value = [];
}

filter_elins_msgs-filtered_example :
    (filter_elins_msgs
        (elins_msg 1 ∷ elins_msg 2 ∷ elins_msg 1 ∷ [])
        (some (elins_filter_dev_id (1 ∷ [])))
      ≡ filtered (elins_filter_dev_id (1 ∷ [])) (elins_msg 1 ∷ elins_msg 2 ∷ elins_msg 1 ∷ []))
    × (filter_elins_msgs (elins_msg 1 ∷ elins_msg 2 ∷ elins_msg 1 ∷ []) none
        ≡ elins_msg 1 ∷ elins_msg 2 ∷ elins_msg 1 ∷ [])
filter_elins_msgs-filtered_example =
    filter_elins_msgs-filtered (elins_msg 1 ∷ elins_msg 2 ∷ elins_msg 1 ∷ [])
      (elins_filter_dev_id (1 ∷ []))
