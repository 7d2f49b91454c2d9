-- ===== src/Drivers/Vector/Opening.antt =====
-- NewVectorWithConfig, open, resolveChannels and Close of driver/vector.go.
use Prim.Native.Nat.{bit_and}
use Prim.Native.String.{String}
use linbuskit.Base.{
  ℕ, zero, suc, ◌%◌, ◌^◌, List, [], ◌∷◌, ◌++◌, Option, none, some, Bool, true, false, not, ltb,
  ◌==◌, if◌then◌else◌, Result, ok, err, ℤ, pos, negsuc, bit_or,
}
use linbuskit.Lin.{ChecksumType, classic_checksum, enhanced_checksum}
use linbuskit.Drivers.Action.{raise_if, guard, gets, modify, pure, ◌>>=◌, ◌>>◌}
use linbuskit.Drivers.Channels.{occurs}
use linbuskit.Drivers.Pcan.Device.{Table, find}
use linbuskit.Drivers.Vector.Device.{
  Vector, VectorApi, VectorConfig, VectorError, app_name_has_nul, no_init_access, channel_not_found,
  mask_not_found, inconsistent_mapping, same_index, lookup, Method, failure_of, status_args,
  is_invalid_port,
}
use linbuskit.Drivers.Vector.Config.{Tables, default_vector_config, normalize_vector_config}

-- `vectorChecksumBytes`
abbrev pub checksum_byte : ChecksumType → ℕ
checksum_byte classic_checksum = 0
checksum_byte enhanced_checksum = 1

-- The first `n` values of an array.
abbrev pub first_values : (ℕ → ℕ) → ℕ → List ℕ
first_values t zero = []
first_values t (suc n) = first_values t n ++ t n ∷ []

abbrev pub vector_checksum_bytes : (ℕ → ChecksumType) → List ℕ
vector_checksum_bytes kinds = first_values (λ id. checksum_byte (kinds id)) 60

abbrev pub or_else_value : {A : Type 0} → Option A → A → A
or_else_value none a = a
or_else_value (some b) a = b

-- Type, index and channel of a device.
abbrev pub Hardware : Type 0
Hardware = ℤ × ℤ × ℤ

abbrev pub of_app_config : ℕ × ℕ × ℕ → Hardware
of_app_config (typ, index, channel) = (pos typ, pos index, pos channel)

-- What a channel resolves to, and the tests on it. The index is `int32` of what the library gives; a
-- negative one is past 63 too.
abbrev pub index_of : ℕ → ℕ
index_of index_result = index_result % 2 ^ 32

abbrev pub mapping_error : Table → ℕ → ℕ → ℕ → Option VectorError
mapping_error used logical index mask =
    if mask == 0
    then some (mask_not_found logical)
    else if not (mask == 2 ^ index)
    then some (inconsistent_mapping index mask)
    else elim (find index used) [ none ↦ none | some previous ↦ some (same_index previous logical) ]

module _ {S : Type 0} where
  abbrev pub resolved : ℕ → ℕ → ℕ → Vector S → Vector S
  resolved logical index mask v = record v {
    channel_info = (logical, record { index = index; mask = mask }) ∷ v.channel_info;
    logical_by_index = (index % 256, logical) ∷ v.logical_by_index;
    access_mask = bit_or v.access_mask mask;
  }

module _ {S : Type 0} (api : VectorApi S) where
  -- A procedure that also writes a value, which is there also where it fails.
  abbrev pub app_config : ℕ → Method S (ℕ × (ℕ × ℕ × ℕ))
  app_config app_channel v =
      let (r, s') = api.get_app_config v.config.app_name app_channel v.library in
      (ok r, record v { library = s' })

  -- The device for a channel: that of the configuration, or that which is set up for an application.
  abbrev pub hardware_by_app : Bool → ℕ → Method S Hardware
  hardware_by_app false logical = gets (λ v. (
    v.config.device_type,
    v.config.device_index,
    or_else_value (lookup logical v.config.hardware_channels) (pos logical),
  ))
  hardware_by_app true logical = do
    config ← gets (λ v. v.config)
    raise_if (occurs 0 config.app_name) app_name_has_nul
    r ← app_config (or_else_value (find logical config.app_channels) logical)
    guard (failure_of "xlGetApplConfig" r.0)
    pure (of_app_config r.1)

  abbrev pub channel_index : Hardware → Method S ℕ
  channel_index (hw_type, hw_index, hw_channel) v =
      let (r, s') = api.get_channel_index hw_type hw_index hw_channel v.library in
      (ok (index_of r), record v { library = s' })

  -- `channelMask`
  abbrev pub channel_mask : Hardware → Method S ℕ
  channel_mask (hw_type, hw_index, hw_channel) v =
      let (r, s') = api.get_channel_mask hw_type hw_index hw_channel v.library in
      (ok (r % 2 ^ 64), record v { library = s' })

  -- One turn of the loop; its result is `used_indexes`, with the channel's index.
  unfoldable pub resolve_channel : ℕ → Table → Method S Table
  unfolding find lookup
  resolve_channel logical used = do
    use_app ← gets (λ v. v.config.use_app_config)
    hardware ← hardware_by_app use_app logical
    index ← channel_index hardware
    raise_if (ltb 63 index) (channel_not_found logical)
    mask ← channel_mask hardware
    guard (mapping_error used logical index mask)
    modify (resolved logical index mask)
    pure ((index, logical) ∷ used)

  unfoldable pub resolve_all : List ℕ → Table → Method S (Unit {0})
  unfolding resolve_channel
  resolve_all [] used = pure tt
  resolve_all (logical ∷ rest) used = resolve_channel logical used >>= resolve_all rest

  unfoldable pub resolve_channels : Method S (Unit {0})
  unfolding resolve_all
  resolve_channels = do channels ← gets (λ v. v.config.channels); resolve_all channels []

  abbrev pub open_port : Method S ℕ
  open_port v =
      let (r, s') =
        api.open_port v.config.app_name v.access_mask v.permission v.config.rx_queue_size
          v.library in
      (ok r.0, record v { port_handle = r.1.0; permission = r.1.1; library = s' })

  unfoldable pub open_channels : Method S (Unit {0})
  unfolding resolve_channels status_args
  open_channels = do
    status_args "xlOpenDriver" api.open_driver
    resolve_channels
    modify (λ v. record v { permission = v.access_mask })
    name ← gets (λ v. v.config.app_name)
    raise_if (occurs 0 name) app_name_has_nul
    guard (failure_of "xlOpenPort" (← open_port))
    v ← gets (λ v. v)
    raise_if (not (bit_and v.permission v.access_mask == v.access_mask)) no_init_access
    status_args "xlLinSetChannelParams" (
        api.lin_set_params v.port_handle v.access_mask v.config.mode v.config.baudrate
          v.config.version)
    status_args "xlLinSetDLC"
        (api.lin_set_dlc v.port_handle v.access_mask (first_values v.dlc_table 64))
    status_args "xlLinSetChecksum"
        (api.lin_set_checksum v.port_handle v.access_mask (vector_checksum_bytes v.checksum_table))
    status_args "xlActivateChannel" (api.activate_channel v.port_handle v.access_mask)

  abbrev pub call_error : String → (S → ℕ × S) → Vector S → List VectorError × Vector S
  call_error operation f v =
      let (r, v') = status_args operation f v in (elim r [ ok a ↦ [] | err e ↦ e ∷ [] ], v')

  abbrev pub deactivate : Bool → Vector S → List VectorError × Vector S
  deactivate true v = ([], v)
  deactivate false v =
      call_error "xlDeactivateChannel" (api.deactivate_channel v.port_handle v.access_mask) v

  abbrev pub close_port : Bool → Vector S → List VectorError × Vector S
  close_port true v = ([], v)
  close_port false v =
      let (errs, v') = deactivate (v.access_mask == 0) v in
      let (errs', v'') = call_error "xlClosePort" (api.close_port v'.port_handle) v' in
      (errs ++ errs', record v'' { port_handle = negsuc 0 })

  abbrev pub close_ports : Bool → Vector S → List VectorError × Vector S
  close_ports false v = ([], v)
  close_ports true v =
      let (errs, v') = close_port (is_invalid_port v.port_handle) v in
      let (errs', v'') = call_error "xlCloseDriver" api.close_driver v' in (errs ++ errs', v'')

  -- What `closeOnce` runs.
  abbrev pub close_vector : Vector S → List VectorError × Vector S
  close_vector v =
      let (errs, v') = close_ports v.has_api (record v { is_closed = true }) in
      (errs, record v' { close_error = errs })

  unfoldable pub close : Vector S → List VectorError × Vector S
  unfolding status_args
  close v = elim v.is_closed [ true ↦ (v.close_error, v) | false ↦ close_vector v ]

-- The driver with its library loaded, before the first call.
abbrev pub fresh_vector : {S : Type 0} → Tables → S → Vector S
fresh_vector (config, dlc, kinds) s = record {
  has_api = true;
  config = config;
  port_handle = negsuc 0;
  access_mask = 0;
  permission = 0;
  is_closed = false;
  close_error = [];
  channel_info = [];
  logical_by_index = [];
  event_chans = [];
  dlc_table = dlc;
  checksum_table = kinds;
  library = s;
}

-- What the constructor comes to: nothing was called, the driver was closed again, or it is open.
pub data VectorOpened (S : Type 0) : Type 0 where
  refused : Option VectorError → VectorOpened S
  abandoned : VectorError → Vector S → VectorOpened S
  opened : Vector S → VectorOpened S

module _ {S : Type 0} (api : VectorApi S) where
  abbrev pub keep_or_close : Result VectorError (Unit {0}) × Vector S → VectorOpened S
  keep_or_close (ok a, v) = opened v
  keep_or_close (err e, v) = abandoned e (close api v).1

  -- `loaded` is what loadVectorAPI gives for the path of a DLL: the library, if it can be loaded.
  abbrev pub open_with : Option S → Tables → VectorOpened S
  open_with none tables = refused none
  open_with (some s) tables = keep_or_close (open_channels api (fresh_vector tables s))

  abbrev pub or_refused : (List ℕ → Option S) → Result VectorError Tables → VectorOpened S
  or_refused loaded (err e) = refused (some e)
  or_refused loaded (ok tables) = open_with (loaded tables.0.dll_path) tables

  unfoldable pub new_vector_with_config : VectorConfig → (List ℕ → Option S) → VectorOpened S
  unfolding open_channels close normalize_vector_config
  new_vector_with_config config loaded = or_refused loaded (normalize_vector_config config)

  unfoldable pub new_vector : ℤ → List ℕ → (List ℕ → Option S) → VectorOpened S
  unfolding new_vector_with_config default_vector_config
  new_vector device_type channels =
      new_vector_with_config (default_vector_config device_type channels)
