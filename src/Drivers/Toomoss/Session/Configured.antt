-- ===== src/Drivers/Toomoss/Session/Configured.antt =====
-- ConfigureELINS and Close of driver/toomoss.go, and the ELINS channels that run after them.
use linbuskit.Base.{
  ℕ, ◌≡◌, refl, arith, List, [], ◌∷◌, none, some, Bool, true, false, not, ◌||◌, ◌==◌, ==→eq,
  Bool-cases, Option-cases, ◌⊎◌, inl, inr, Result, ok, err,
}
use linbuskit.Drivers.Action.{modify, ◌>>=◌, guard_then, raise_if_then}
use linbuskit.Drivers.Action.Preserves.{Preserves, preserves_rules}
use linbuskit.Drivers.Toomoss.Usb.{usb_close, reset_toomoss_state, close_if, freed}
use linbuskit.Drivers.Toomoss.Lifetime.{close, close-first, stop_if}
use linbuskit.Drivers.Channels.{occurs}
use linbuskit.Drivers.Elins.{ElinsConfig, check_elins_config, with_timeout}
use linbuskit.Drivers.Elins.Accepted.{normalize-none, normalize-some}
use linbuskit.Drivers.Toomoss.Device.{
  ToomossApi, Usb, usb_call, ToomossError, driver_closed, elins_not_available, Session, init_failed,
  already_configured,
}
use linbuskit.Drivers.Toomoss.Session.{configured_error, init_each, configure_elins}
use linbuskit.Drivers.Toomoss.Session.Stopping.{
  StartsAndStops, CanStop, RunsBy, library-stop_if, running-stop_each,
}
use linbuskit.Drivers.Toomoss.Session.Running.{Configures, init_each-Configures}

configured_error-none :
    (configured channels : List ℕ)
    → configured_error configured channels ≡ none
    → (c : ℕ) → occurs c channels ≡ true
    → occurs c configured ≡ false
unfolding configured_error
configured_error-none configured [] h c there = ground arith
configured_error-none configured (channel ∷ rest) h c there =
    elim (Bool-cases (occurs channel configured)) [
      | inl old ↦
          let failed : configured_error configured (channel ∷ rest)
              ≡ some (already_configured channel) =
            rw old refl in
          cc
      | inr new ↦
          let later : configured_error configured rest ≡ none = ground arith in
          elim (Bool-cases (channel == c)) [
            | inl same ↦ rw⁻¹ (==→eq channel c same) new
            | inr other ↦ configured_error-none configured rest later c (ground arith)
          ]
    ]

module _ {S : Type 0} (api : ToomossApi S) (lib : StartsAndStops api) (c : ℕ) where
  -- What an error leaves, and what a success, as to the channel `c`.
  abbrev pub Configured :
      ElinsConfig → Session S → Result ToomossError (Unit {0}) × Session S → Type 0
  Configured config s (err e, s') =
      (s'.device ≡ s.device)
      × ((e ≡ init_failed c) ⊎ RunsBy api lib c s.device.elins_channels s'.usb.library)
  Configured config s (ok a, s') =
      RunsBy api lib c s'.device.elins_channels s'.usb.library
      × (occurs c s'.device.elins_channels
          ≡ (occurs c config.channels || occurs c s.device.elins_channels))

  Configures-Configured :
      (config : ElinsConfig) (s : Session S) (r : Result ToomossError (Unit {0}) × Session S)
      → Configures api lib c [] config.channels s r
      → Configured config s r
  Configures-Configured config s (err e, s') h = h
  Configures-Configured config s (ok a, s') h = h

  -- Let the library have ELINS_Stop, and let it succeed for a channel, which runs exactly if the device
  -- knows it as an ELINS channel. Then ConfigureELINS either fails, with the device as before, and with
  -- the channel running exactly if it did, or else the error names it as the one that could not be set
  -- up; or the device knows the channel if the configuration has it or the device did before, and
  -- exactly then it runs.
  pub configure_elins-Configured :
      (config : ElinsConfig) (s : Session S)
      → CanStop api c
      → s.usb.procs.elins_stop ≡ true
      → RunsBy api lib c s.device.elins_channels s.usb.library
      → Configured config s (configure_elins api config s)
  unfolding configure_elins ◌>>=◌
  configure_elins-Configured config s can stop runs =
      elim (Option-cases (check_elins_config config)) [
        | inr (e, refused) ↦ rw (normalize-some config e refused) (refl, inr runs)
        | inl fine ↦ rw (normalize-none config fine) (
            raise_if_then (Configured config s) s.device.is_closed driver_closed _ s
              (refl, inr runs)
              (λ there.
                raise_if_then (Configured config s)
                  (not s.usb.procs.elins_init || not s.usb.procs.elins_get_msg) elins_not_available
                  _ s (refl, inr runs)
                  (λ found.
                    guard_then (Configured config s)
                      (configured_error s.device.elins_channels config.channels) _ s
                      (λ e. (refl, inr runs)) (λ new. initialized new))))
      ]
    where
      initialized :
          configured_error s.device.elins_channels config.channels ≡ none
          → Configured config s (init_each api (with_timeout config) [] config.channels s)
      initialized new = Configures-Configured config s _ (
          init_each-Configures api lib c can (with_timeout config) config.channels [] s
            (runs, (λ i. ground arith), stop)
            (configured_error-none s.device.elins_channels config.channels new))

  -- The channel does not run.
  abbrev pub Stopped : Usb S → Type 0
  Stopped u = lib.running u.library c ≡ false

  close_if-Stopped : (loaded : Bool) → Preserves Stopped (close_if api loaded)
  unfolding reset_toomoss_state
  close_if-Stopped false = search preserves_rules
  close_if-Stopped true =
      let closed : Preserves Stopped (usb_call api.close_device) = record {
        after = λ u quiet. lib.close_starts_none u.library c quiet;
      } in
      let released : Preserves Stopped (freed api) = record {
        after = λ u quiet. lib.free_starts_none u.library c quiet;
      } in
      let forgotten : Preserves {E = ToomossError} Stopped (modify reset_toomoss_state) = record {
        after = λ u quiet. quiet;
      } in
      search preserves_rules depth 14

  -- Let the library have ELINS_Stop, and let it succeed for a channel, which runs exactly if the device
  -- knows it as an ELINS channel. After Close of the device, if that is open, the channel does not run,
  -- whatever the calls return that release the device and the library.
  pub close-Stopped :
      (s : Session S)
      → s.device.is_closed ≡ false
      → CanStop api c
      → s.usb.procs.elins_stop ≡ true
      → RunsBy api lib c s.device.elins_channels s.usb.library
      → Stopped (close api s).1.usb
  unfolding usb_close ◌>>=◌
  close-Stopped s there can stop runs =
      rw (close-first api s there) ((close_if-Stopped u.is_loaded).after u stopped)
    where
      u : Usb S
      u = stop_if api s.usb.procs.elins_stop s.device.elins_channels s.usb

      stopped : Stopped u
      stopped =
          rw
            (
              library-stop_if api lib c s.usb.procs.elins_stop s.device.elins_channels s.usb stop,
              running-stop_each api lib c s.device.elins_channels s.usb.library can,
              runs,
            )
            (ground arith)
