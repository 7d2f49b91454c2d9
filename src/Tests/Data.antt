-- ===== src/Tests/Data.antt =====
-- Test data: frames, transports, a world that plays a list of events, a slave and a client.
use linbuskit.Base.{
  ℕ, ◌≤◌, ◌<◌, ◌≡◌, refl, arith, List, [], ◌∷◌, Option, none, some, Bool, true, false, ok, length,
  pos,
}
use linbuskit.Base.{Result}
use linbuskit.Lin.{LinEvent, World, DriverError, rx, classic_checksum}
use linbuskit.Transport.Config.{
  TransportConfig, default_transport_config, normalize_transport_config,
}
use linbuskit.Transport.State.{Transport, new_transport_with_config, Reassembly, reset_state}
use linbuskit.Transport.Execute.Invariant.{GivesLinFrames}
use linbuskit.Transport.Execute.Termination.{Drains}
use linbuskit.Slave.{LinSlave, new_slave}

abbrev pub ten_bytes : List ℕ
ten_bytes = 1 ∷ 2 ∷ 3 ∷ 4 ∷ 5 ∷ 6 ∷ 7 ∷ 8 ∷ 9 ∷ 10 ∷ []

abbrev pub now_is : ℕ → ℕ → ℕ
now_is time i = time

abbrev pub event : ℕ → List ℕ → LinEvent
event id payload = record {
  channel = 0;
  event_id = id;
  event_payload = payload;
  checksum_type = classic_checksum;
  direction = rx;
  timestamp = 0;
}

abbrev pub config : TransportConfig
config = record {
  tx_queue_size = pos 683;
  rx_queue_size = pos 10;
  poll_interval = pos 10_000_000;
  read_timeout = pos 10_000_000;
  multi_frame_timeout = pos 1_000_000_000;
  continuous_slave_poll = false;
}

abbrev pub fresh : Bool → Transport
fresh is_slave = record {
  is_slave = is_slave;
  channel = 0;
  tx_queue = [];
  rx_queue = [];
  config = config;
  scheduled_tx_event = none;
  awaiting_slave_response = false;
  assembly = reset_state;
  running = false;
  closed = false;
  wake = false;
  errors = [];
  receive_errors = [];
}

abbrev pub master_transport : Transport
master_transport = fresh false

abbrev pub slave_transport : Transport
slave_transport = fresh true

fresh_lem :
    (is_slave : Bool)
    → fresh is_slave ≡ new_transport_with_config is_slave default_transport_config []
unfolding new_transport_with_config normalize_transport_config
fresh_lem is_slave = refl

-- A reception with four bytes there and nine to come.
abbrev pub receiving : Reassembly
receiving = record {
  current_frame_data = 1 ∷ 2 ∷ 3 ∷ 4 ∷ [];
  current_sid = 0x22;
  current_nad = 1;
  current_frame_counter = 0;
  remaining_bytes = 9;
  multi_frame_start_time = 5;
}

-- The same with three bytes to come.
abbrev pub finishing : Reassembly
finishing = record receiving { remaining_bytes = 3 }

abbrev pub next_event : List LinEvent → Result DriverError (Option LinEvent) × List LinEvent
next_event [] = (ok none, [])
next_event (e ∷ es) = (ok (some e), es)

-- It gives the listed events, takes every frame, and its clock stands.
abbrev pub playing : World (List LinEvent)
playing = record {
  driver = record {
    read_event = λ timeout channel s. next_event s;
    write_message = λ e channel s. (none, s);
    schedule_slave_response = λ e channel s. (none, s);
    request_slave_response = λ id channel s. (none, s);
  };
  now = λ s. 0;
}

-- It refuses every response.
abbrev pub refusing : World (List LinEvent)
refusing = record {
  driver = record {
    read_event = λ timeout channel s. next_event s;
    write_message = λ e channel s. (none, s);
    schedule_slave_response = λ e channel s. (some DriverError.driver_closed, s);
    request_slave_response = λ id channel s. (none, s);
  };
  now = λ s. 0;
}

-- It plays events whose payload is cut off, and so gives LIN frames.
abbrev pub next_cut : List LinEvent → Result DriverError (Option LinEvent) × List LinEvent
next_cut [] = (ok none, [])
next_cut (e ∷ es) = (ok (some (event e.event_id (0x01 ∷ 0x01 ∷ 0xB6 ∷ []))), es)

abbrev pub short_frames : World (List LinEvent)
short_frames = record {
  driver = record {
    read_event = λ timeout channel s. next_cut s;
    write_message = λ e channel s. (none, s);
    schedule_slave_response = λ e channel s. (none, s);
    request_slave_response = λ id channel s. (none, s);
  };
  now = λ s. 0;
}

next_cut_short :
    (s : List LinEvent) (e : LinEvent) → (next_cut s).0 ≡ ok (some e) → length e.event_payload ≤ 8
next_cut_short [] e h = cc
next_cut_short (x ∷ s) e h = ground arith

pub short_frames-GivesLinFrames : GivesLinFrames short_frames
short_frames-GivesLinFrames = record {
  at_most_eight = λ timeout channel s e h. next_cut_short s e h;
}

pub next_event_takes :
    (s : List LinEvent) (e : LinEvent)
    → (next_event s).0 ≡ ok (some e)
    → length (next_event s).1 < length s
next_event_takes [] e h = cc
next_event_takes (x ∷ s) e h = omega arith

abbrev pub playing-Drains : Drains playing
playing-Drains = record {
  waiting = λ s. length s;
  read_takes = λ timeout channel s e h. next_event_takes s e h;
  schedule_keeps = λ e channel s. omega arith;
}

abbrev pub node : LinSlave
node = record {
  nad = 0x01;
  saved_nad = 0;
  supplier_id = 0x1234;
  function_id = 0x5678;
  variant_id = 0x10;
  serial_number = 1 ∷ 2 ∷ 3 ∷ 4 ∷ [];
  frame_identifiers = 0 ∷ 0 ∷ 0 ∷ 0 ∷ 0 ∷ [];
  transport = slave_transport;
  running = false;
  closed = false;
}

node_lem : node ≡ new_slave 0x01 0x10 0x1234 0x5678 none []
unfolding new_slave new_transport_with_config normalize_transport_config
node_lem = refl
