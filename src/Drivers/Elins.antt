-- ===== src/Drivers/Elins.antt =====
-- The configuration of ELINS channels in driver/toomoss.go.
pub mod Accepted
pub mod Filters
pub mod Compaction
use linbuskit.Drivers.Channels.{check_each, is_empty}
use linbuskit.Base.{
  ℕ, List, [], ◌∷◌, Option, none, some, Bool, true, false, ltb, ◌==◌, ◌||◌, if◌then◌else◌, Result,
  ok, err,
}

pub record ElinsConfig : Type 0 where
  pub channels : List ℕ
  pub baudrate : ℕ
  pub res_enable : ℕ
  pub version : ℕ
  pub receive_timeout_us : ℕ

pub data ElinsError : Type 0 where
  no_channel : ElinsError
  baudrate_out_of_range bad_res_enable unsupported_version : ℕ → ElinsError
  invalid_channel duplicate_channel : ℕ → ElinsError

-- The first channel is 0, so no channel is below it.
abbrev pub ch4 : ℕ
ch4 = 3

abbrev pub default_elins_receive_timeout_us : ℕ
default_elins_receive_timeout_us = 1000

abbrev pub range_error : ℕ → Option ElinsError
range_error c = if ltb ch4 c then some (invalid_channel c) else none

-- The loop over the channels.
unfoldable pub check_channels : List ℕ → Option ElinsError
unfolding check_each
check_channels channels = check_each range_error duplicate_channel (λ c. none) [] channels

-- What is refused, in the order of the tests.
unfoldable pub check_elins_config : ElinsConfig → Option ElinsError
unfolding check_channels
check_elins_config c =
    if is_empty c.channels
    then some no_channel
    else if ltb c.baudrate 2000 || ltb 5000000 c.baudrate
    then some (baudrate_out_of_range c.baudrate)
    else if ltb 1 c.res_enable
    then some (bad_res_enable c.res_enable)
    else if ltb 2 c.version
    then some (unsupported_version c.version)
    else check_channels c.channels

abbrev pub with_timeout : ElinsConfig → ElinsConfig
with_timeout c = record c {
  receive_timeout_us =
      if c.receive_timeout_us == 0 then default_elins_receive_timeout_us else c.receive_timeout_us;
}

unfoldable pub normalize_elins_config : ElinsConfig → Result ElinsError ElinsConfig
unfolding check_elins_config
normalize_elins_config c = elim (check_elins_config c) [
  | some e ↦ err e
  | none ↦ ok (with_timeout c)
]
