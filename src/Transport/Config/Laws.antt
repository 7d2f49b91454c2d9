-- ===== src/Transport/Config/Laws.antt =====
-- What the normalisation of a transport configuration promises.
use linbuskit.Base.{◌≡◌, false, arith}
use linbuskit.Base.{is_nonpositive, is_negative}
use linbuskit.Transport.Config.{TransportConfig, normalize_transport_config}

-- Sizes and intervals that the transport can work with.
pub record IsUsable (c : TransportConfig) : Type 0 where
  pub tx_size : is_nonpositive c.tx_queue_size ≡ false
  pub rx_size : is_nonpositive c.rx_queue_size ≡ false
  pub poll : is_nonpositive c.poll_interval ≡ false
  pub read : is_negative c.read_timeout ≡ false
  pub multi_frame : is_nonpositive c.multi_frame_timeout ≡ false

-- Normalising gives a usable configuration, keeps the polling flag, and changes nothing in a
-- configuration that is usable already.
normalize-IsUsable :
    (c d : TransportConfig)
    → IsUsable d
    → IsUsable (normalize_transport_config c)
      × ((normalize_transport_config c).continuous_slave_poll ≡ c.continuous_slave_poll)
      × (normalize_transport_config d ≡ d)
unfolding normalize_transport_config
normalize-IsUsable c d h = ground arith
