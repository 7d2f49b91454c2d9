-- ===== src/Tests/Ports.antt =====
-- A small XL library with two channels, and the driver of driver/vector.go on it.
use linbuskit.Base.{
  ℕ, ◌+◌, ◌%◌, ◌^◌, ◌≤◌, ◌<◌, ◌≡◌, refl, arith, List, [], ◌∷◌, length, pos, pos_part,
}
use linbuskit.Lin.{classic_checksum, enhanced_checksum}
use linbuskit.Drivers.Action.Repeat.{Ends}
use linbuskit.Drivers.Queues.{HoldsFrames-none}
use linbuskit.Drivers.Vector.Device.{Vector, VectorApi, VectorConfig, XlEvent}
use linbuskit.Drivers.Vector.Config.{
  Tables, default_dlc, default_checksum, set_at, default_vector_config, with_vector_defaults,
  normalize_vector_config,
}
use linbuskit.Drivers.Vector.Opening.{fresh_vector}
use linbuskit.Drivers.Vector.Traffic.{read_event}
use linbuskit.Drivers.Vector.Reading.{IsDraining, Good, read_vector_event-Ends}
use linbuskit.Drivers.Vector.Tables.{IsRow, normalize_vector_config-IsRow}

-- The lengths to come, each of a frame on the first channel, and the time.
record Bus : Type 0 where
  arriving : List ℕ
  clock : ℕ

abbrev event_of_length : ℕ → XlEvent
event_of_length n = record {
  tag = 20;
  channel_index = 0;
  message = record {
    frame_id = 0x10;
    dlc = n;
    flags = 0;
    data_bytes = 1 ∷ 2 ∷ 3 ∷ 4 ∷ 5 ∷ 6 ∷ 7 ∷ 8 ∷ [];
  };
}

abbrev take_one : List ℕ → ℕ → (ℕ × (ℕ × XlEvent)) × Bus
take_one [] now = ((10, (0, event_of_length 0)), record { arriving = []; clock = now })
take_one (n ∷ rest) now = ((0, (1, event_of_length n)), record { arriving = rest; clock = now })

abbrev succeeds : Bus → ℕ × Bus
succeeds b = (0, b)

abbrev bus_api : VectorApi Bus
bus_api = record {
  open_driver = succeeds;
  close_driver = succeeds;
  get_app_config = λ name channel b. ((0, (57, 0, channel)), b);
  get_channel_index = λ typ index channel b. (pos_part channel, b);
  get_channel_mask = λ typ index channel b. (2 ^ pos_part channel, b);
  open_port = λ name mask permission size b. ((0, (pos 1, permission)), b);
  close_port = λ port. succeeds;
  activate_channel = λ port mask. succeeds;
  deactivate_channel = λ port mask. succeeds;
  receive = λ port b. take_one b.arriving b.clock;
  lin_set_params = λ port mask mode baudrate version. succeeds;
  lin_set_dlc = λ port mask lengths. succeeds;
  lin_set_checksum = λ port mask kinds. succeeds;
  lin_set_slave = λ port mask frame_id bytes count checksum. succeeds;
  lin_switch_slave = λ port mask frame_id mode. succeeds;
  lin_send_request = λ port mask frame_id. succeeds;
  lin_wake_up = λ port mask. succeeds;
  lin_set_sleep_mode = λ port mask flags frame_id. succeeds;
  flush_receive_queue = λ port. succeeds;
  get_queue_level = λ port b. ((0, pos (length b.arriving)), b);
  now = λ b. b.clock;
  wait = λ d b. record b { clock = b.clock + d };
}

take_one-takes :
    (q : List ℕ) (now : ℕ)
    → (take_one q now).0.0 % 2 ^ 16 ≡ 0
    → length (take_one q now).1.arriving < length q
take_one-takes [] now h = absurd (omega arith)
take_one-takes (x ∷ q) now h = omega arith

take_one-keeps : (q : List ℕ) (now : ℕ) → length (take_one q now).1.arriving ≤ length q
take_one-keeps [] now = omega arith
take_one-keeps (x ∷ q) now = omega arith

take_one-clock : (q : List ℕ) (now : ℕ) → now ≤ (take_one q now).1.clock
take_one-clock [] now = omega arith
take_one-clock (x ∷ q) now = omega arith

bus_lib : IsDraining bus_api
bus_lib = record {
  pending = λ b. length b.arriving;
  receive_takes = λ port b h there. take_one-takes b.arriving b.clock h;
  receive_keeps = λ port b. take_one-keeps b.arriving b.clock;
  receive_clock = λ port b. take_one-clock b.arriving b.clock;
  wait_moves = λ d b h. omega arith;
  wait_keeps = λ d b. omega arith;
}

abbrev bus : Bus
bus = record { arriving = 2 ∷ 8 ∷ []; clock = 100 }

-- Two channels, and a frame of three bytes with the classic checksum.
abbrev wanted : VectorConfig
wanted = record (default_vector_config (pos 57) (0 ∷ 1 ∷ [])) {
  baudrate = pos 0;
  dlc = (5, 3) ∷ [];
  checksum = (5, classic_checksum) ∷ (6, enhanced_checksum) ∷ [];
}

abbrev tables : Tables
tables = (
  with_vector_defaults wanted,
  set_at default_dlc 5 3,
  set_at (set_at (default_checksum 3) 5 classic_checksum) 6 enhanced_checksum,
)

normalize_vector_config-IsRow_example :
    (tables.0 ≡ with_vector_defaults wanted) × ((id : ℕ) → IsRow tables.0 tables.1 tables.2 id)
unfolding normalize_vector_config default_vector_config
normalize_vector_config-IsRow_example =
    normalize_vector_config-IsRow wanted tables (refl, tt) (refl, (refl, tt)) refl

abbrev running : Vector Bus
running = record (fresh_vector tables bus) {
  port_handle = pos 1;
  access_mask = 3;
  permission = 3;
  channel_info = (1, record { index = 1; mask = 2 }) ∷ (0, record { index = 0; mask = 1 }) ∷ [];
  logical_by_index = (1, 1) ∷ (0, 0) ∷ [];
}

-- Both frames are of the first channel, so a read of the second finds none before its time is up.
read_vector_event-Ends_example :
    Ends (Good bus_api bus_lib 1) (read_event bus_api 30 (pos 20) 1 running)
unfolding bus_lib
read_vector_event-Ends_example =
    read_vector_event-Ends bus_api bus_lib 30 (pos 20) 1 running (HoldsFrames-none 128)
      (omega arith)
