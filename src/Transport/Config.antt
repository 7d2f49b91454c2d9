-- ===== src/Transport/Config.antt =====
-- tplin/adapter.go, and the defaults and the normalisation of tplin/transport.go. A duration is a
-- signed number of nanoseconds.
pub mod Laws
use linbuskit.Base.{ℕ, ◌*◌, ℤ, pos, is_negative, is_nonpositive, Bool, false, if◌then◌else◌}

abbrev pub master_diagnostic_frame_id : ℕ
master_diagnostic_frame_id = 0x3C

abbrev pub slave_diagnostic_frame_id : ℕ
slave_diagnostic_frame_id = 0x3D

abbrev pub broadcast_nad : ℕ
broadcast_nad = 0x7F

abbrev pub read_by_identifier_sid : ℕ
read_by_identifier_sid = 0xB2

abbrev pub assign_nad_sid : ℕ
assign_nad_sid = 0xB0

abbrev pub save_configuration_sid : ℕ
save_configuration_sid = 0xB6

abbrev pub data_identifier_lin_product_identifier : ℕ
data_identifier_lin_product_identifier = 0

abbrev pub data_identifier_serial_number : ℕ
data_identifier_serial_number = 1

abbrev pub broadcast_supplier_id : ℕ
broadcast_supplier_id = 0x7FFF

abbrev pub broadcast_function_id : ℕ
broadcast_function_id = 0xFFFF

abbrev pub default_tx_queue_size : ℕ
default_tx_queue_size = 683

abbrev pub default_rx_queue_size : ℕ
default_rx_queue_size = 10

abbrev pub millisecond : ℕ
millisecond = 1_000_000

abbrev pub max_transport_data_length : ℕ
max_transport_data_length = 4094

pub record TransportConfig : Type 0 where
  pub tx_queue_size : ℤ
  pub rx_queue_size : ℤ
  pub poll_interval : ℤ
  pub read_timeout : ℤ
  pub multi_frame_timeout : ℤ
  pub continuous_slave_poll : Bool

unfoldable pub default_transport_config : TransportConfig
default_transport_config = record {
  tx_queue_size = pos default_tx_queue_size;
  rx_queue_size = pos default_rx_queue_size;
  poll_interval = pos (10 * millisecond);
  read_timeout = pos (10 * millisecond);
  multi_frame_timeout = pos (1000 * millisecond);
  continuous_slave_poll = false;
}

-- `ReadTimeout` may be zero, so its test is `< 0`.
unfoldable pub normalize_transport_config : TransportConfig → TransportConfig
unfolding default_transport_config
normalize_transport_config c =
    let d = default_transport_config in
    record {
      tx_queue_size = if is_nonpositive c.tx_queue_size then d.tx_queue_size else c.tx_queue_size;
      rx_queue_size = if is_nonpositive c.rx_queue_size then d.rx_queue_size else c.rx_queue_size;
      poll_interval = if is_nonpositive c.poll_interval then d.poll_interval else c.poll_interval;
      read_timeout = if is_negative c.read_timeout then d.read_timeout else c.read_timeout;
      multi_frame_timeout =
          if is_nonpositive c.multi_frame_timeout
          then d.multi_frame_timeout
          else c.multi_frame_timeout;
      continuous_slave_poll = c.continuous_slave_poll;
    }
