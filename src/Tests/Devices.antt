-- ===== src/Tests/Devices.antt =====
-- A small PLIN library with one client and two devices, and the driver of driver/pcan.go on it.
use linbuskit.Base.{
  ℕ, ◌+◌, ◌≤◌, ◌<◌, ◌≡◌, refl, arith, List, [], ◌∷◌, true, false, length, length-take, take, pos,
}
use linbuskit.Drivers.Action.Repeat.{Ends}
use linbuskit.Drivers.Queues.{HoldsFrames-none}
use linbuskit.Drivers.Pcan.Device.{Pcan, PcanApi, PcanReceived, pcan_master}
use linbuskit.Drivers.Pcan.Config.{PcanConfig}
use linbuskit.Drivers.Pcan.Lifetime.{close}
use linbuskit.Drivers.Pcan.Traffic.{read_event}
use linbuskit.Drivers.Pcan.Reading.{IsDraining, Good, read_event-Ends}
use linbuskit.Drivers.Pcan.Calls.{
  Call, call_read, call_request, call_reset, call_close, perform_calls, perform_calls-close,
  refusals,
}

-- The payloads to come, each from the device 7, and the time.
record Bench : Type 0 where
  arriving : List (List ℕ)
  clock : ℕ

abbrev received : List ℕ → PcanReceived
received payload = record {
  kind = 0;
  hardware = 7;
  error_flags = 0;
  message = record {
    frame_id = 0x50;
    byte_count = length (take 8 payload);
    direction = 2;
    checksum_type = 2;
    data_bytes = take 8 payload;
  };
}

abbrev take_one : List (List ℕ) → ℕ → (ℕ × PcanReceived) × Bench
take_one [] now = ((3, received []), record { arriving = []; clock = now })
take_one (payload ∷ rest) now = ((0, received payload), record { arriving = rest; clock = now })

abbrev succeeds : Bench → ℕ × Bench
succeeds b = (0, b)

abbrev bench_api : PcanApi Bench
bench_api = record {
  register_client = λ name b. ((0, 1), b);
  remove_client = λ client. succeeds;
  connect_client = λ client hardware. succeeds;
  disconnect_client = λ client hardware. succeeds;
  reset_client = λ client. succeeds;
  set_client_filter = λ client hardware mask. succeeds;
  read = λ client b. take_one b.arriving b.clock;
  write = λ client hardware message. succeeds;
  initialize_hardware = λ client hardware mode baudrate. succeeds;
  count_hardware = λ b. ((0, 2), b);
  get_available_hardware = λ count b. ((0, (2, 7 ∷ 9 ∷ [])), b);
  get_hardware_param = λ hardware parameter b. ((0, pos 0), b);
  set_frame_entry = λ client hardware entry. succeeds;
  update_byte_array = λ client hardware frame_id index count bytes. succeeds;
  calculate_checksum = λ message b. ((0, message), b);
  free_library = λ b. (false, b);
  now = λ b. b.clock;
  wait = λ d b. record b { clock = b.clock + d };
}

take_one-takes :
    (q : List (List ℕ)) (now : ℕ)
    → (take_one q now).0.0 ≡ 0
    → length (take_one q now).1.arriving < length q
take_one-takes [] now h = absurd (omega arith)
take_one-takes (x ∷ q) now h = omega arith

take_one-keeps : (q : List (List ℕ)) (now : ℕ) → length (take_one q now).1.arriving ≤ length q
take_one-keeps [] now = omega arith
take_one-keeps (x ∷ q) now = omega arith

take_one-clock : (q : List (List ℕ)) (now : ℕ) → now ≤ (take_one q now).1.clock
take_one-clock [] now = omega arith
take_one-clock (x ∷ q) now = omega arith

take_one-data : (q : List (List ℕ)) (now : ℕ) → length (take_one q now).0.1.message.data_bytes ≤ 8
take_one-data [] now = omega arith
take_one-data (x ∷ q) now = omega (arith, length-take 8 x)

bench_lib : IsDraining bench_api
bench_lib = record {
  pending = λ b. length b.arriving;
  read_takes = λ client b. take_one-takes b.arriving b.clock;
  read_keeps = λ client b. take_one-keeps b.arriving b.clock;
  read_clock = λ client b. take_one-clock b.arriving b.clock;
  read_data = λ client b. take_one-data b.arriving b.clock;
  wait_moves = λ d b h. omega arith;
  wait_keeps = λ d b. omega arith;
}

abbrev bench : Bench
bench = record { arriving = (1 ∷ 2 ∷ []) ∷ (3 ∷ []) ∷ []; clock = 100 }

abbrev two_channels : PcanConfig
two_channels = record {
  client_name = [];
  mode = 0;
  baudrate = 0;
  channels = 4 ∷ 5 ∷ [];
  hardware_handles = (4, 9) ∷ (5, 7) ∷ [];
}

abbrev running : Pcan Bench
running = record {
  has_api = true;
  client = 1;
  mode = pcan_master;
  baudrate = 19200;
  is_closed = false;
  hardware_by_channel = (4, 9) ∷ (5, 7) ∷ [];
  channel_by_hardware = (9, 4) ∷ (7, 5) ∷ [];
  connected_hardware = 9 ∷ 7 ∷ [];
  event_chans = [];
  close_error = [];
  library = bench;
}

-- Both messages are for the other channel, so a read without a timeout gives nothing.
read_event-Ends_example :
    Ends (Good bench_api bench_lib 4) (read_event bench_api 3 (pos 0) 4 running)
unfolding bench_lib
read_event-Ends_example =
    read_event-Ends bench_api bench_lib 3 (pos 0) 4 running (HoldsFrames-none 128) (omega arith)

abbrev late_calls : List Call
late_calls = call_read 5 (pos 0) 4 ∷ call_request 0x40 4 ∷ call_close ∷ call_reset ∷ []

perform_calls-close_example :
    let (errs, q) = close bench_api running in
    perform_calls bench_api (call_close ∷ late_calls) running ≡ (errs ∷ refusals errs late_calls, q)
perform_calls-close_example = perform_calls-close bench_api running late_calls (refl, refl)
