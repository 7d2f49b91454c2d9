-- ===== src/Drivers/Pcan/Config.antt =====
-- normalizePCANConfig of driver/pcan.go. A Go string is its bytes; a nil slice is an empty one.
use linbuskit.Base.{
  ℕ, List, [], ◌∷◌, Option, none, some, Bool, false, not, ◌&&◌, ◌||◌, ltb, ◌==◌, if◌then◌else◌,
  Result, ok, err,
}
use linbuskit.Drivers.Channels.{occurs, is_empty, check_each}
use linbuskit.Drivers.Pcan.Device.{
  PcanError, client_name_has_nul, invalid_mode, invalid_baudrate, duplicate_channel, zero_handle,
  Table, find, pcan_slave, pcan_master,
}

pub record PcanConfig : Type 0 where
  pub client_name : List ℕ
  pub mode : ℕ
  pub baudrate : ℕ
  pub channels : List ℕ
  pub hardware_handles : Table

-- "linbuskit"
abbrev pub default_name : List ℕ
default_name = 108 ∷ 105 ∷ 110 ∷ 98 ∷ 117 ∷ 115 ∷ 107 ∷ 105 ∷ 116 ∷ []

abbrev pub pcan_min_baudrate : ℕ
pcan_min_baudrate = 1000

abbrev pub pcan_max_baudrate : ℕ
pcan_max_baudrate = 20000

unfoldable pub default_pcan_config : List ℕ → PcanConfig
default_pcan_config channels = record {
  client_name = default_name;
  mode = pcan_master;
  baudrate = 19200;
  channels = if is_empty channels then 0 ∷ [] else channels;
  hardware_handles = [];
}

-- The defaults for what is left out.
abbrev pub with_defaults : PcanConfig → PcanConfig
with_defaults c = record c {
  client_name = if is_empty c.client_name then default_name else c.client_name;
  mode = if c.mode == 0 then pcan_master else c.mode;
  baudrate = if c.baudrate == 0 then 19200 else c.baudrate;
  channels = if is_empty c.channels then 0 ∷ [] else c.channels;
}

abbrev pub is_zero_handle : Option ℕ → Bool
is_zero_handle none = false
is_zero_handle (some handle) = handle == 0

abbrev pub handle_error : Table → ℕ → Option PcanError
handle_error handles c = if is_zero_handle (find c handles) then some (zero_handle c) else none

-- The loop over the channels.
unfoldable pub check_channels : Table → List ℕ → Option PcanError
unfolding check_each
check_channels handles channels =
    check_each (λ c. none) duplicate_channel (handle_error handles) [] channels

-- The tests, in their order, on a configuration with its defaults.
unfoldable pub check_pcan_config : PcanConfig → Option PcanError
unfolding check_channels
check_pcan_config c =
    if occurs 0 c.client_name
    then some client_name_has_nul
    else if not (c.mode == pcan_master) && not (c.mode == pcan_slave)
    then some (invalid_mode c.mode)
    else if ltb c.baudrate pcan_min_baudrate || ltb pcan_max_baudrate c.baudrate
    then some (invalid_baudrate c.baudrate)
    else check_channels c.hardware_handles c.channels

abbrev pub accept_pcan : PcanConfig → Option PcanError → Result PcanError PcanConfig
accept_pcan c none = ok c
accept_pcan c (some e) = err e

unfoldable pub normalize_pcan_config : PcanConfig → Result PcanError PcanConfig
unfolding check_pcan_config
normalize_pcan_config c = accept_pcan (with_defaults c) (check_pcan_config (with_defaults c))
