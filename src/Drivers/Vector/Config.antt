-- ===== src/Drivers/Vector/Config.antt =====
-- normalizeVectorConfig of driver/vector.go, with the tables of lengths and of checksum kinds.
use linbuskit.Base.{
  ℕ, List, [], ◌∷◌, Option, none, some, Bool, true, false, not, ◌&&◌, ◌||◌, ltb, ◌==◌,
  if◌then◌else◌, Result, ok, err, ℤ, pos, negsuc, is_nonpositive,
}
use linbuskit.Lin.{ChecksumType, classic_checksum, enhanced_checksum}
use linbuskit.Drivers.Channels.{occurs, is_empty, check_each}
use linbuskit.Drivers.Pcan.{is_diagnostic, is_classic}
use linbuskit.Drivers.Pcan.Config.{default_name}
use linbuskit.Drivers.Vector.Device.{
  VectorConfig, VectorError, app_name_has_nul, invalid_mode, invalid_version, duplicate_channel,
  invalid_baudrate, invalid_hardware_type, negative_hardware_channel, invalid_table_id, invalid_dlc,
  diagnostic_dlc, needs_classic, diagnostic_classic, lookup, vector_lin_master, vector_lin_slave,
}

abbrev pub vector_lin_version_13 : ℕ
vector_lin_version_13 = 1

abbrev pub vector_lin_version_21 : ℕ
vector_lin_version_21 = 3

abbrev pub vector_maximum_frame_id : ℕ
vector_maximum_frame_id = 0x3F

abbrev pub vector_maximum_payload_len : ℕ
vector_maximum_payload_len = 8

unfoldable pub default_vector_config : ℤ → List ℕ → VectorConfig
default_vector_config device_type channels = record {
  app_name = default_name;
  dll_path = [];
  use_app_config = false;
  device_type = device_type;
  device_index = pos 0;
  hardware_channels = [];
  app_channels = [];
  channels = if is_empty channels then 0 ∷ [] else channels;
  mode = vector_lin_master;
  baudrate = pos 19200;
  version = vector_lin_version_21;
  dlc = [];
  checksum = [];
  rx_queue_size = 16384;
}

abbrev pub or_default : ℤ → ℕ → ℤ
or_default (pos n) m = if n == 0 then pos m else pos n
or_default (negsuc n) m = negsuc n

-- The defaults for what is left out.
unfoldable pub with_vector_defaults : VectorConfig → VectorConfig
with_vector_defaults c = record c {
  app_name = if is_empty c.app_name then default_name else c.app_name;
  mode = if c.mode == 0 then vector_lin_master else c.mode;
  version = if c.version == 0 then vector_lin_version_21 else c.version;
  baudrate = or_default c.baudrate 19200;
  rx_queue_size = if c.rx_queue_size == 0 then 16384 else c.rx_queue_size;
  channels = if is_empty c.channels then 0 ∷ [] else c.channels;
}

abbrev pub is_vector_baudrate : ℤ → Bool
is_vector_baudrate (pos n) = not (ltb n 1000 || ltb 20000 n)
is_vector_baudrate (negsuc n) = false

abbrev pub is_negative_channel : Option ℤ → Bool
is_negative_channel none = false
is_negative_channel (some (pos n)) = false
is_negative_channel (some (negsuc n)) = true

abbrev pub hardware_channel_error : List (ℕ × ℤ) → ℕ → Option VectorError
hardware_channel_error hardware_channels c =
    if is_negative_channel (lookup c hardware_channels)
    then some (negative_hardware_channel c)
    else none

-- The tests before the tables, in their order, on a configuration with its defaults.
unfoldable pub check_vector_config : VectorConfig → Option VectorError
unfolding check_each lookup
check_vector_config c =
    if occurs 0 c.app_name
    then some app_name_has_nul
    else if not (c.mode == vector_lin_master) && not (c.mode == vector_lin_slave)
    then some (invalid_mode c.mode)
    else if ltb c.version vector_lin_version_13 || ltb vector_lin_version_21 c.version
    then some (invalid_version c.version)
    else if not (is_vector_baudrate c.baudrate)
    then some (invalid_baudrate c.baudrate)
    else if not c.use_app_config && is_nonpositive c.device_type
    then some (invalid_hardware_type c.device_type)
    else check_each (λ x. none) duplicate_channel (hardware_channel_error c.hardware_channels) []
        c.channels

-- An array in which one value is set.
abbrev pub set_at : {A : Type 0} → (ℕ → A) → ℕ → A → ℕ → A
set_at t id a j = if j == id then a else t j

abbrev pub default_dlc : ℕ → ℕ
default_dlc id = vector_maximum_payload_len

abbrev pub default_checksum : ℕ → ℕ → ChecksumType
default_checksum version id =
    if version == vector_lin_version_13 || is_diagnostic id
    then classic_checksum
    else enhanced_checksum

abbrev pub dlc_error : ℕ → ℕ → Option VectorError
dlc_error id length =
    if ltb vector_maximum_frame_id id
    then some (invalid_table_id id)
    else if ltb vector_maximum_payload_len length
    then some (invalid_dlc length)
    else if is_diagnostic id && not (length == vector_maximum_payload_len)
    then some (diagnostic_dlc id)
    else none

-- A kind of checksum is one of two here, so that the test for another falls away.
abbrev pub checksum_kind_error : ℕ → ℕ → ChecksumType → Option VectorError
checksum_kind_error version id kind =
    if ltb vector_maximum_frame_id id
    then some (invalid_table_id id)
    else if version == vector_lin_version_13 && not (is_classic kind)
    then some (needs_classic id)
    else if is_diagnostic id && not (is_classic kind)
    then some (diagnostic_classic id)
    else none

abbrev pub unless_error :
    {A : Type 0} → Option VectorError → Result VectorError A → Result VectorError A
unless_error none r = r
unless_error (some e) r = err e

-- The loops over the maps, which go through a list here: a map has no key twice, so that the order
-- decides no more than which of several errors is returned.
module _ {A : Type 0} (entry_error : ℕ → A → Option VectorError) where
  unfoldable pub fill_table : List (ℕ × A) → (ℕ → A) → Result VectorError (ℕ → A)
  fill_table [] t = ok t
  fill_table ((id, a) ∷ rest) t = unless_error (entry_error id a) (fill_table rest (set_at t id a))

abbrev pub Tables : Type 0
Tables = VectorConfig × (ℕ → ℕ) × (ℕ → ChecksumType)

abbrev pub with_checksums :
    VectorConfig → (ℕ → ℕ) → Result VectorError (ℕ → ChecksumType) → Result VectorError Tables
with_checksums c dlc (err e) = err e
with_checksums c dlc (ok kinds) = ok (c, dlc, kinds)

abbrev pub with_dlc : VectorConfig → Result VectorError (ℕ → ℕ) → Result VectorError Tables
with_dlc c (err e) = err e
with_dlc c (ok dlc) =
    with_checksums c dlc
      (fill_table (checksum_kind_error c.version) c.checksum (default_checksum c.version))

unfoldable pub normalize_vector_config : VectorConfig → Result VectorError Tables
unfolding check_vector_config fill_table with_vector_defaults
normalize_vector_config config =
    let c = with_vector_defaults config in
    unless_error (check_vector_config c) (with_dlc c (fill_table dlc_error c.dlc default_dlc))
