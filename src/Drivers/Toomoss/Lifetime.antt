-- ===== src/Drivers/Toomoss/Lifetime.antt =====
-- NewToomoss and Close of driver/toomoss.go.
use linbuskit.Base.{
  ℕ, ◌≡◌, refl, sym, subst, List, [], ◌∷◌, Option, none, some, Bool, true, false, ◌==◌,
  if◌then◌else◌, Result, ok, err,
}
use linbuskit.Drivers.Action.{raise_if, gets, modify, pure, ◌>>=◌, ◌>>◌}
use linbuskit.Drivers.Channels.{is_empty}
use linbuskit.Drivers.Toomoss.Device.{
  ToomossApi, ToomossError, already_active, no_channel, scan_failed, open_failed, init_failed, Usb,
  Toomoss, Session, UsbMethod, usb_call,
}
use linbuskit.Drivers.Toomoss.Usb.{ensure_toomoss_loaded, is_scanned, is_opened, usb_close}

-- `Bt`
abbrev pub baudrate : ℕ
baudrate = 19200

abbrev pub fresh_device : List ℕ → Toomoss
fresh_device channels = record {
  is_closed = false;
  close_error = none;
  channels = channels;
  elins_channels = [];
  event_chans = [];
}

abbrev pub error_of : {S A : Type 0} → Result ToomossError A × S → Option ToomossError
error_of (ok a, s) = none
error_of (err e, s) = some e

module _ {S : Type 0} (api : ToomossApi S) where
  abbrev pub test : (Usb S → Bool × Usb S) → ToomossError → UsbMethod S (Unit {0})
  test f e u = let (b, u') = f u in (if b then ok tt else err e, u')

  -- A device whose channel cannot be set up is closed; whether that fails is not looked at.
  abbrev pub init_error : ℕ → ℕ → UsbMethod S (Unit {0})
  init_error channel ret u =
      if ret == 0 then (ok tt, u) else (err (init_failed channel), (usb_close api u).1)

  unfoldable pub init_channels : ℕ → List ℕ → UsbMethod S (Unit {0})
  unfolding usb_close
  init_channels mode [] = pure tt
  init_channels mode (channel ∷ rest) = usb_call (api.lin_ex_init channel baudrate mode) >>= λ ret.
      init_error channel ret >> init_channels mode rest

  -- What NewToomoss does up to the last channel.
  abbrev pub set_up : List ℕ → ℕ → UsbMethod S (Unit {0})
  set_up channels mode = do
    raise_if (is_empty channels) no_channel
    ensure_toomoss_loaded api
    test (is_scanned api) scan_failed
    test (is_opened api) open_failed
    init_channels mode channels

  unfoldable pub new_toomoss : List ℕ → ℕ → UsbMethod S Toomoss
  unfolding ensure_toomoss_loaded is_scanned is_opened init_channels
  new_toomoss channels mode = do
    active ← gets (λ u. u.instance_active)
    raise_if active already_active
    set_up channels mode
    modify (λ u. record u { instance_active = true })
    pure (fresh_device channels)

  -- `ELINS_Stop` on each channel, whose status is not looked at.
  unfoldable pub stop_each : List ℕ → S → S
  stop_each [] l = l
  stop_each (channel ∷ rest) l = stop_each rest (api.elins_stop channel l).1

  abbrev pub stop_if : Bool → List ℕ → Usb S → Usb S
  stop_if true channels u = record u { library = stop_each channels u.library }
  stop_if false channels u = u

  -- What `closeOnce` runs.
  abbrev pub close_first : Session S → Option ToomossError × Session S
  close_first s =
      let u = stop_if s.usb.procs.elins_stop s.device.elins_channels s.usb in
      let (r, u') = usb_close api u in
      let e = error_of (r, u') in
      (
        e,
        record {
          device = record s.device { is_closed = true; close_error = e };
          usb = record u' { instance_active = false };
        },
      )

  unfoldable pub close : Session S → Option ToomossError × Session S
  unfolding usb_close stop_each
  close s = elim s.device.is_closed [ true ↦ (s.device.close_error, s) | false ↦ close_first s ]

  pub close-first : (s : Session S) → s.device.is_closed ≡ false → close s ≡ close_first s
  unfolding close
  close-first s there =
      subst
        (λ (b : Bool).
          let r : Option ToomossError × Session S = elim b [
            | true ↦ (s.device.close_error, s)
            | false ↦ close_first s
          ] in
          r ≡ close_first s)
        (sym there) refl
