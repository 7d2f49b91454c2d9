-- ===== src/Transport/State.antt =====
-- The `Transport` struct of tplin/transport.go, its messages and its errors. A Go channel is the
-- list of what waits in it, oldest first. The fields that `stateMutex` guards are `Reassembly`.
-- The mutexes, the wait group and the cancel function have no field: each method is one step.
use linbuskit.Base.{ℕ, List, [], ◌∷◌, ◌++◌, Option, none, Bool, false, ltb}
use linbuskit.Base.{if◌then◌else◌, pos_part, length}
use linbuskit.Lin.{LinEvent, DriverError}
use linbuskit.Transport.Config.{TransportConfig, normalize_transport_config}

pub record LinMessage : Type 0 where
  pub nad : ℕ
  pub sid : ℕ
  pub payload : List ℕ  -- `Data`

-- `tx_queue_full need have` and `message_too_long len` hold what the text of the error reports.
pub data Error : Type 0 where
  transport_closed rx_queue_full : Error
  tx_queue_full : ℕ → ℕ → Error
  message_too_long : ℕ → Error
  read_failed schedule_failed write_failed request_failed : DriverError → Error

pub record Reassembly : Type 0 where
  pub current_frame_data : List ℕ
  pub current_sid : ℕ
  pub current_nad : ℕ
  pub current_frame_counter : ℕ
  pub remaining_bytes : ℕ
  pub multi_frame_start_time : ℕ

pub record Transport : Type 0 where
  pub is_slave : Bool
  pub channel : ℕ
  pub tx_queue : List LinEvent
  pub rx_queue : List LinMessage
  pub config : TransportConfig
  pub scheduled_tx_event : Option LinEvent
  pub awaiting_slave_response : Bool
  pub assembly : Reassembly
  pub running : Bool
  pub closed : Bool
  pub wake : Bool  -- a channel of capacity 1
  pub errors : List Error
  pub receive_errors : List Error

abbrev pub tx_capacity : Transport → ℕ
tx_capacity t = pos_part t.config.tx_queue_size

abbrev pub rx_capacity : Transport → ℕ
rx_capacity t = pos_part t.config.rx_queue_size

abbrev pub error_capacity : ℕ
error_capacity = 16

-- `resetState`; it is also the state of the zero value.
abbrev pub reset_state : Reassembly
reset_state = record {
  current_frame_data = [];
  current_sid = 0;
  current_nad = 0;
  current_frame_counter = 0;
  remaining_bytes = 0;
  multi_frame_start_time = 0;
}

-- The variadic channel argument.
abbrev pub selected_channel : List ℕ → ℕ
selected_channel [] = 0
selected_channel (c ∷ rest) = c

unfoldable pub new_transport_with_config : Bool → TransportConfig → List ℕ → Transport
new_transport_with_config is_slave config channel = record {
  is_slave = is_slave;
  channel = selected_channel channel;
  tx_queue = [];
  rx_queue = [];
  config = normalize_transport_config config;
  scheduled_tx_event = none;
  awaiting_slave_response = false;
  assembly = reset_state;
  running = false;
  closed = false;
  wake = false;
  errors = [];
  receive_errors = [];
}

-- `select { case q <- x: default: }` on a channel of the given capacity.
abbrev pub send_or_drop {ℓ} : {A : Type ℓ} → ℕ → List A → A → List A
send_or_drop capacity q x = if ltb (length q) capacity then q ++ x ∷ [] else q
