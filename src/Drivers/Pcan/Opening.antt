-- ===== src/Drivers/Pcan/Opening.antt =====
-- The constructor of driver/pcan.go, and Close.
use linbuskit.Base.{
  ℕ, ◌-◌, ◌^◌, List, [], ◌∷◌, ◌++◌, Option, none, some, Bool, true, false, ◌&&◌, ◌||◌, ltb, ◌==◌,
  if◌then◌else◌, length, take, Result, ok, err, ℤ, pos, negsuc,
}
use linbuskit.Drivers.Channels.{occurs}
use linbuskit.Drivers.Action.{raise_if, gets, modify, pure, ◌>>=◌, ◌>>◌, guard}
use linbuskit.Drivers.Pcan.Device.{
  PcanApi, PcanError, client_name_has_nul, invalid_client, no_hardware, invalid_hardware_count,
  hardware_changed, no_such_index, handle_unavailable, same_hardware, call_failed, Table, find,
  Method, pcan_call, pcan_get, failure_of, pcan_error_ok, pcan_error_buffer_insufficient,
}
use linbuskit.Drivers.Pcan.Config.{PcanConfig}

-- `list[i]`
abbrev pub item : ℕ → List ℕ → Option ℕ
item i [] = none
item i (x ∷ xs) = if i == 0 then some x else item (i - 1) xs

-- handles in ascending order
abbrev pub insert_sorted : ℕ → List ℕ → List ℕ
insert_sorted x [] = x ∷ []
insert_sorted x (y ∷ ys) = if ltb y x then y ∷ insert_sorted x ys else x ∷ y ∷ ys

abbrev pub sorted : List ℕ → List ℕ
sorted [] = []
sorted (x ∷ xs) = insert_sorted x (sorted xs)

-- The map `used` of mapHardware, from handles to channels, and the two maps of the driver.
pub record Mapping : Type 0 where
  pub used : Table
  pub hardware_by_channel : Table
  pub channel_by_hardware : Table

abbrev pub some_or : Option ℕ → PcanError → Result PcanError ℕ
some_or none e = err e
some_or (some h) e = ok h

-- The handle for a channel: the one given for it, if it is available, or else the one in its place.
unfoldable pub choose_handle : Table → List ℕ → ℕ → Result PcanError ℕ
choose_handle handles available channel = elim (find channel handles) [
  | none ↦ some_or (item channel available) (no_such_index channel channel (length available))
  | some handle ↦
      if occurs handle available then ok handle else err (handle_unavailable handle channel)
]

abbrev pub use_handle : ℕ → Mapping → ℕ → Result PcanError Mapping
use_handle channel m handle = elim (find handle m.used) [
  | some previous ↦ err (same_hardware previous channel handle)
  | none ↦ ok (record {
    used = (handle, channel) ∷ m.used;
    hardware_by_channel = (channel, handle) ∷ m.hardware_by_channel;
    channel_by_hardware = (handle, channel) ∷ m.channel_by_hardware;
  })
]

abbrev pub chosen : ℕ → Mapping → Result PcanError ℕ → Result PcanError Mapping
chosen channel m (err e) = err e
chosen channel m (ok handle) = use_handle channel m handle

-- What follows a channel, unless it has no handle.
abbrev pub map_further :
    Mapping
    → (Mapping → Option PcanError × Mapping)
    → Result PcanError Mapping
    → Option PcanError × Mapping
map_further m further (err e) = (some e, m)
map_further m further (ok m') = further m'

-- The loop of mapHardware, with the maps that an error leaves behind.
unfoldable pub map_channels : Table → List ℕ → List ℕ → Mapping → Option PcanError × Mapping
unfolding choose_handle
map_channels handles available [] m = (none, m)
map_channels handles available (channel ∷ rest) m =
    map_further m (map_channels handles available rest)
      (chosen channel m (choose_handle handles available channel))

abbrev pub pcan_hardware_param_mode : ℕ
pcan_hardware_param_mode = 7

abbrev pub pcan_hardware_param_baudrate : ℕ
pcan_hardware_param_baudrate = 6

abbrev pub is_number : ℤ → ℕ → Bool
is_number (pos n) m = n == m
is_number (negsuc n) m = false

unfoldable pub map_hardware : {S : Type 0} → PcanConfig → List ℕ → Method S (Unit {0})
unfolding map_channels
map_hardware config available p =
    let (failure, m) = map_channels config.hardware_handles available config.channels (record {
      used = [];
      hardware_by_channel = p.hardware_by_channel;
      channel_by_hardware = p.channel_by_hardware;
    }) in
    (
      elim failure [ none ↦ ok tt | some e ↦ err e ],
      record p {
        hardware_by_channel = m.hardware_by_channel;
        channel_by_hardware = m.channel_by_hardware;
      },
    )

module _ {S : Type 0} (api : PcanApi S) where
  -- The handle is written also where the call fails.
  abbrev pub registered : List ℕ → Method S ℕ
  registered name p =
      let (r, s') = api.register_client name p.library in
      (ok r.0, record p { client = r.1; library = s' })

  unfoldable pub register : List ℕ → Method S (Unit {0})
  register client_name = do
    raise_if (occurs 0 client_name) client_name_has_nul
    guard (failure_of "LIN_RegisterClient" (← registered client_name))
    client ← gets (λ p. p.client)
    raise_if (client == 0) invalid_client

  abbrev pub counted : Method S ℕ
  counted p =
      let (r, s') = api.count_hardware p.library in
      (
        (if r.0 == pcan_error_ok || r.0 == pcan_error_buffer_insufficient
            then ok r.1
            else err (call_failed "LIN_GetAvailableHardware(count)" r.0)),
        record p { library = s' },
      )

  -- The first call asks for the number of devices, the second for their handles.
  unfoldable pub available_hardware : Method S (List ℕ)
  unfolding pcan_get
  available_hardware = do
    count ← counted
    raise_if (count == 0) no_hardware
    raise_if (ltb 32767 count) (invalid_hardware_count count)
    (returned, handles) ← pcan_get "LIN_GetAvailableHardware" (api.get_available_hardware count)
    raise_if (ltb count returned) (hardware_changed returned count)
    pure (take returned handles)

  -- `hardwareParameter` and `hardwareParameterUnlocked`
  unfoldable pub hardware_parameter : ℕ → ℕ → Method S ℤ
  unfolding pcan_get
  hardware_parameter hardware parameter =
      pcan_get "LIN_GetHardwareParam" (api.get_hardware_param hardware parameter)

  abbrev pub initialize_unless : Bool → ℕ → Method S (Unit {0})
  initialize_unless true hardware p = (ok tt, p)
  initialize_unless false hardware p =
      pcan_call "LIN_InitializeHardware"
        (api.initialize_hardware p.client hardware p.mode p.baudrate) p

  unfoldable pub connect_and_initialize : ℕ → Method S (Unit {0})
  unfolding pcan_call hardware_parameter
  connect_and_initialize hardware = do
    client ← gets (λ p. p.client)
    pcan_call "LIN_ConnectClient" (api.connect_client client hardware)
    modify (λ p. record p { connected_hardware = p.connected_hardware ++ hardware ∷ [] })
    current_mode ← hardware_parameter hardware pcan_hardware_param_mode
    current_baudrate ← hardware_parameter hardware pcan_hardware_param_baudrate
    p ← gets (λ p. p)
    initialize_unless (is_number current_mode p.mode && is_number current_baudrate p.baudrate)
        hardware
    pcan_call "LIN_SetClientFilter" (api.set_client_filter client hardware (2 ^ 64 - 1))
