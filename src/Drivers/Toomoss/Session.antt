-- ===== src/Drivers/Toomoss/Session.antt =====
-- The ELINS channels of an open device in driver/toomoss.go, and the power output.
pub mod Stopping
pub mod Running
pub mod Configured
pub mod Upheld
use linbuskit.Base.{
  ℕ, List, [], ◌∷◌, ◌++◌, Option, none, some, Bool, true, false, not, ◌||◌, ltb, ◌==◌,
  if◌then◌else◌, length, take, Result, ok, err, min,
}
use Prim.Native.String.{String}
use linbuskit.Drivers.Action.{Action, raise_if, guard, gets, modify, lift, pure, ◌>>=◌, ◌>>◌}
use linbuskit.Drivers.Channels.{occurs}
use linbuskit.Drivers.Elins.{ElinsConfig, ElinsError, normalize_elins_config}
use linbuskit.Drivers.Elins.Filters.{ElinsMsg, ElinsMsgFilter, filter_elins_msgs}
use linbuskit.Drivers.Toomoss.Device.{
  ToomossApi, ToomossError, driver_closed, elins_not_available, elins_error, already_configured,
  init_failed, empty_buffer, not_loaded, returned, Usb, Session, Method, call, is_negative_word,
  validate_elins_channel, validate_configured_channel,
}
use linbuskit.Drivers.Toomoss.Usb.{system_error}
use linbuskit.Drivers.Toomoss.Lifetime.{stop_each, stop_if}

abbrev pub slave_mode : ℕ
slave_mode = 0

abbrev pub elins_slave_read_max_frames : ℕ
elins_slave_read_max_frames = 1024

abbrev pub of_elins : {A : Type 0} → Result ElinsError A → Result ToomossError A
of_elins (ok a) = ok a
of_elins (err e) = err (elins_error e)

-- The first of the channels that is configured already.
unfoldable pub configured_error : List ℕ → List ℕ → Option ToomossError
configured_error configured [] = none
configured_error configured (channel ∷ rest) =
    if occurs channel configured
    then some (already_configured channel)
    else configured_error configured rest

-- Whether a call failed.
abbrev pub has_failed : ℕ × ℕ → Bool
has_failed (ret, call_err) = not (call_err == 0) || not (ret == 0)

module _ {S : Type 0} (api : ToomossApi S) where
  -- What has been set up is stopped again, the last first, and the error returned.
  abbrev pub rollback : List ℕ → ToomossError → Method S (Unit {0})
  rollback initialized e s =
      (err e, record s { usb = stop_if api s.usb.procs.elins_stop initialized s.usb })

  -- `ELINS_SetRevTime`, if the library has it, gives whether it failed.
  abbrev pub set_rev_time : Bool → ℕ → ℕ → Method S Bool
  set_rev_time false time channel s = (ok false, s)
  set_rev_time true time channel s =
      let (r, l) = api.elins_set_rev_time channel time s.usb.library in
      (ok (has_failed r), record s { usb = record s.usb { library = l } })

  abbrev pub init_channel : ElinsConfig → ℕ → Method S Bool
  init_channel config channel s =
      let (r, l) =
        api.elins_init channel config.baudrate slave_mode config.res_enable config.version
          s.usb.library in
      (ok (has_failed r), record s { usb = record s.usb { library = l } })

  abbrev pub unless_failed :
      Bool → List ℕ → ToomossError → Method S (Unit {0}) → Method S (Unit {0})
  unless_failed true initialized e next = rollback initialized e
  unless_failed false initialized e next = next

  -- The loop over the channels; `initialized` are those that are set up, the last first.
  unfoldable pub init_each : ElinsConfig → List ℕ → List ℕ → Method S (Unit {0})
  unfolding stop_each
  init_each config initialized [] = modify λ s. record s {
    device = record s.device { elins_channels = initialized ++ s.device.elins_channels };
  }
  init_each config initialized (channel ∷ rest) = init_channel config channel >>= λ failed.
      unless_failed failed initialized (init_failed channel) (
        gets (λ s. s.usb.procs.elins_set_rev_time) >>= λ there.
        set_rev_time there config.receive_timeout_us channel >>= λ failed.
        unless_failed failed (channel ∷ initialized) (init_failed channel)
          (init_each config (channel ∷ initialized) rest))

  -- What comes after the configuration has been checked.
  abbrev pub configure_normalized : ElinsConfig → Method S (Unit {0})
  configure_normalized normalized = do
    closed ← gets (λ s. s.device.is_closed)
    raise_if closed driver_closed
    procs ← gets (λ s. s.usb.procs)
    raise_if (not procs.elins_init || not procs.elins_get_msg) elins_not_available
    configured ← gets (λ s. s.device.elins_channels)
    guard (configured_error configured normalized.channels)
    init_each normalized [] normalized.channels

  unfoldable pub configure_elins : ElinsConfig → Method S (Unit {0})
  unfolding init_each configured_error normalize_elins_config
  configure_elins config = lift (of_elins (normalize_elins_config config)) >>= configure_normalized

  unfoldable pub lin_ex_ctrl_power_out : ℕ → ℕ → Method S (Unit {0})
  unfolding validate_configured_channel
  lin_ex_ctrl_power_out channel vbat = do
    there ← gets (λ s. s.usb.procs.ctrl_power_out)
    raise_if (not there) (not_loaded "LIN_EX_CtrlPowerOut")
    validate_configured_channel channel
    r ← call (api.ctrl_power_out channel vbat)
    guard (system_error "LIN_EX_CtrlPowerOut" r.1)
    raise_if (not (r.0 == 0)) (returned "LIN_EX_CtrlPowerOut" r.0)

  -- `ElinsSlaveReadInto` with a buffer of `room` messages gives those that stand in it.
  unfoldable pub elins_slave_read_into : ℕ → ℕ → Method S (List ElinsMsg)
  unfolding validate_elins_channel
  elins_slave_read_into room channel = do
    raise_if (room == 0) empty_buffer
    validate_elins_channel channel
    there ← gets (λ s. s.usb.procs.elins_get_msg)
    raise_if (not there) (not_loaded "ELINS_GetMsg")
    r ← call (api.elins_get_msg channel room)
    guard (system_error "ELINS_GetMsg" r.1)
    raise_if (is_negative_word r.0) (returned "ELINS_GetMsg" r.0)
    pure (take (min r.0 room) r.2)

  unfoldable pub elins_slave_read : ℕ → Method S (List ElinsMsg)
  unfolding elins_slave_read_into
  elins_slave_read = elins_slave_read_into elins_slave_read_max_frames

  unfoldable pub elins_slave_read_filter : ℕ → Option ElinsMsgFilter → Method S (List ElinsMsg)
  unfolding elins_slave_read filter_elins_msgs
  elins_slave_read_filter channel keep = do
    msgs ← elins_slave_read channel
    pure (filter_elins_msgs msgs keep)
