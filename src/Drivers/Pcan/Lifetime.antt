-- ===== src/Drivers/Pcan/Lifetime.antt =====
-- NewPCANWithConfig and Close of driver/pcan.go, and the calls on the client as a whole.
use linbuskit.Base.{
  ℕ, List, [], ◌∷◌, ◌++◌, Option, none, some, Bool, true, false, ◌==◌, if◌then◌else◌, Result, ok,
  err, ℤ,
}
use linbuskit.Drivers.Action.{gets, pure, ◌>>=◌, ◌>>◌}
use linbuskit.Drivers.Pcan.Device.{
  Pcan, PcanApi, PcanError, unload_failed, find, Method, pcan_call, validate_state,
  validate_channel, hardware_of,
}
use linbuskit.Drivers.Pcan.Config.{PcanConfig, default_pcan_config, normalize_pcan_config}
use linbuskit.Drivers.Pcan.Opening.{
  sorted, register, available_hardware, map_hardware, connect_and_initialize, hardware_parameter,
}

abbrev pub one_error : {A : Type 0} → Result PcanError A → List PcanError
one_error (ok a) = []
one_error (err e) = e ∷ []

-- What the constructor comes to: nothing was called, the driver was closed again, or it is open.
pub data Opened (S : Type 0) : Type 0 where
  refused : Option PcanError → Opened S
  abandoned : PcanError → Pcan S → Opened S
  opened : Pcan S → Opened S

-- The driver with its library loaded, before the first call.
abbrev pub fresh_pcan : {S : Type 0} → PcanConfig → S → Pcan S
fresh_pcan config s = record {
  has_api = true;
  client = 0;
  mode = config.mode;
  baudrate = config.baudrate;
  is_closed = false;
  hardware_by_channel = [];
  channel_by_hardware = [];
  connected_hardware = [];
  event_chans = [];
  close_error = [];
  library = s;
}

abbrev pub or_zero : Option ℕ → ℕ
or_zero none = 0
or_zero (some h) = h

module _ {S : Type 0} (api : PcanApi S) where
  unfoldable pub disconnect_all : List ℕ → Pcan S → List PcanError × Pcan S
  disconnect_all [] p = ([], p)
  disconnect_all (hardware ∷ rest) p =
      let (r, p') = pcan_call "LIN_DisconnectClient" (api.disconnect_client p.client hardware) p in
      let (errs, p'') = disconnect_all rest p' in (one_error r ++ errs, p'')

  abbrev pub remove_client : Pcan S → List PcanError × Pcan S
  remove_client p =
      let (r, p') = pcan_call "LIN_RemoveClient" (api.remove_client p.client) p in
      (one_error r, record p' { client = 0 })

  abbrev pub release_client : Bool → Pcan S → List PcanError × Pcan S
  release_client true p = ([], p)
  release_client false p =
      let (errs, p') = disconnect_all (sorted p.connected_hardware) p in
      let (errs', p'') = remove_client p' in (errs ++ errs', p'')

  -- `api.close`
  abbrev pub unload : Pcan S → List PcanError × Pcan S
  unload p =
      let (failed, s') = api.free_library p.library in
      (if failed then unload_failed ∷ [] else [], record p { has_api = false; library = s' })

  abbrev pub release : Bool → Pcan S → List PcanError × Pcan S
  release false p = ([], p)
  release true p =
      let (errs, p') = release_client (p.client == 0) p in
      let (errs', p'') = unload p' in (errs ++ errs', p'')

  -- What `closeOnce` runs.
  abbrev pub close_first : Pcan S → List PcanError × Pcan S
  close_first p =
      let (errs, p') = release p.has_api (record p { is_closed = true }) in
      (errs, record p' { close_error = errs })

  unfoldable pub close : Pcan S → List PcanError × Pcan S
  unfolding disconnect_all pcan_call
  close p = elim p.is_closed [ true ↦ (p.close_error, p) | false ↦ close_first p ]

  unfoldable pub initialize_all : List ℕ → Method S (Unit {0})
  initialize_all [] = pure tt
  initialize_all (channel ∷ rest) =
      gets (λ p. or_zero (find channel p.hardware_by_channel)) >>= λ hardware.
      connect_and_initialize api hardware >> initialize_all rest

  -- The constructor on a loaded library.
  unfoldable pub initialize : PcanConfig → Method S (Unit {0})
  unfolding initialize_all
  initialize config = do
    register api config.client_name
    available ← available_hardware api
    map_hardware config available
    initialize_all config.channels

  abbrev pub keep_or_close : Result PcanError (Unit {0}) × Pcan S → Opened S
  keep_or_close (ok a, p) = opened p
  keep_or_close (err e, p) = abandoned e (close p).1

  abbrev pub open_with : PcanConfig → Option S → Opened S
  open_with config none = refused none
  open_with config (some s) = keep_or_close (initialize config (fresh_pcan config s))

  -- `loaded` is what loadPCANAPI gives: the library, if one of the candidates can be loaded.
  unfoldable pub new_pcan_with_config : PcanConfig → Option S → Opened S
  unfolding initialize close
  new_pcan_with_config config loaded = elim (normalize_pcan_config config) [
    | err e ↦ refused (some e)
    | ok normalized ↦ open_with normalized loaded
  ]

  unfoldable pub new_pcan : List ℕ → Option S → Opened S
  unfolding new_pcan_with_config default_pcan_config
  new_pcan channels = new_pcan_with_config (default_pcan_config channels)

  unfoldable pub reset : Method S (Unit {0})
  reset = do
    validate_state
    validate_state
    client ← gets (λ p. p.client)
    pcan_call "LIN_ResetClient" (api.reset_client client)

  -- `HardwareInfo`: the numbers of the device and of its channel.
  unfoldable pub hardware_info : ℕ → Method S (ℤ × ℤ)
  hardware_info channel = do
    validate_channel channel
    validate_state
    hardware ← hardware_of channel
    device_number ← hardware_parameter api hardware 2
    hardware_channel ← hardware_parameter api hardware 3
    pure (device_number, hardware_channel)
