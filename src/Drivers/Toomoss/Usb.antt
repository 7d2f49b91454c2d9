-- ===== src/Drivers/Toomoss/Usb.antt =====
-- The loading of the library and the USB calls in driver/toomoss.go.
use linbuskit.Base.{
  ℕ, Option, none, some, Bool, true, false, not, ◌&&◌, ltb, ◌==◌, if◌then◌else◌, Result, ok, err,
}
use Prim.Native.String.{String}
use linbuskit.Drivers.Action.{raise_if, guard, gets, modify, pure, ◌>>=◌, ◌>>◌}
use linbuskit.Drivers.Toomoss.Device.{
  ToomossApi, ToomossError, Procs, Usb, UsbMethod, usb_call, load_failed, library_not_loaded,
  procs_missing, not_loaded, call_failed, returned, free_failed,
}

abbrev pub no_procs : Procs
no_procs = record {
  scan_device = false;
  open_device = false;
  close_device = false;
  lin_ex_init = false;
  master_sync = false;
  slave_get_data = false;
  elins_init = false;
  elins_get_msg = false;
  elins_set_rev_time = false;
  elins_stop = false;
  ctrl_power_out = false;
}

-- The procedures that the driver cannot do without.
abbrev pub has_required : Procs → Bool
has_required p =
    p.scan_device
    && (p.open_device && (p.close_device && (p.lin_ex_init && (p.master_sync && p.slave_get_data))))

-- The error of a call, and of what it returned.
abbrev pub system_error : String → ℕ → Option ToomossError
system_error operation code = if code == 0 then none else some (call_failed operation code)

module _ {S : Type 0} where
  unfoldable pub toomoss_ready : Usb S → Bool
  toomoss_ready u = u.is_loaded && has_required u.procs

  unfoldable pub reset_toomoss_state : Usb S → Usb S
  reset_toomoss_state u = record u { is_loaded = false; procs = no_procs }

  -- What an action returns, with false for an error.
  abbrev pub or_false : Result ToomossError Bool × Usb S → Bool × Usb S
  or_false (ok b, u) = (b, u)
  or_false (err e, u) = (false, u)

module _ {S : Type 0} (api : ToomossApi S) where
  abbrev pub loaded : UsbMethod S (Unit {0})
  loaded u =
      let (there, l) = api.load_usb2xxx u.library in
      (if there then ok tt else err load_failed, record u { is_loaded = there; library = l })

  abbrev pub load_unless : Bool → UsbMethod S (Unit {0})
  load_unless true = pure tt
  load_unless false = do usb_call api.load_libusb; loaded

  -- A libusb that cannot be loaded is passed over.
  unfoldable pub load_dlls : UsbMethod S (Unit {0})
  load_dlls = gets (λ u. u.is_loaded) >>= load_unless

  unfoldable pub get_procs : S → Procs
  get_procs l = record {
    scan_device = api.has_proc "USB_ScanDevice" l;
    open_device = api.has_proc "USB_OpenDevice" l;
    close_device = api.has_proc "USB_CloseDevice" l;
    lin_ex_init = api.has_proc "LIN_EX_Init" l;
    master_sync = api.has_proc "LIN_EX_MasterSync" l;
    slave_get_data = api.has_proc "LIN_EX_SlaveGetData" l;
    elins_init = api.has_proc "ELINS_Init" l;
    elins_get_msg = api.has_proc "ELINS_GetMsg" l;
    elins_set_rev_time = api.has_proc "ELINS_SetRevTime" l;
    elins_stop = api.has_proc "ELINS_Stop" l;
    ctrl_power_out = api.has_proc "LIN_EX_CtrlPowerOut" l;
  }

  unfoldable pub load_proc_addresses : UsbMethod S (Unit {0})
  unfolding get_procs
  load_proc_addresses = do
    there ← gets (λ u. u.is_loaded)
    raise_if (not there) library_not_loaded
    modify (λ u. record u { procs = get_procs u.library })
    required ← gets (λ u. has_required u.procs)
    raise_if (not required) procs_missing

  abbrev pub free : Usb S → Usb S
  free u = record u { library = (api.free_library u.library).1 }

  abbrev pub free_if : Bool → Usb S → Usb S
  free_if true u = free u
  free_if false u = u

  -- A library that lacks a procedure is released again.
  abbrev pub or_unload :
      Result ToomossError (Unit {0}) × Usb S → Result ToomossError (Unit {0}) × Usb S
  or_unload (ok a, u) = (ok a, u)
  or_unload (err e, u) = (err e, reset_toomoss_state (free_if u.is_loaded u))

  abbrev pub load_library : UsbMethod S (Unit {0})
  load_library = do modify reset_toomoss_state; load_dlls; λ u. or_unload (load_proc_addresses u)

  abbrev pub load_library_unless : Bool → UsbMethod S (Unit {0})
  load_library_unless true = pure tt
  load_library_unless false = load_library

  unfoldable pub ensure_toomoss_loaded : UsbMethod S (Unit {0})
  unfolding toomoss_ready reset_toomoss_state load_dlls load_proc_addresses
  ensure_toomoss_loaded = gets toomoss_ready >>= load_library_unless

  -- The device is there if the word that USB_ScanDevice returns is above zero, and open if that of
  -- USB_OpenDevice is at least one.
  unfoldable pub usb_scan : UsbMethod S Bool
  usb_scan = do
    there ← gets (λ u. u.procs.scan_device)
    raise_if (not there) (not_loaded "USB_ScanDevice")
    (ret, call_err) ← usb_call api.scan_device
    guard (system_error "USB_ScanDevice" call_err)
    pure (ltb 0 ret)

  unfoldable pub usb_open : UsbMethod S Bool
  usb_open = do
    there ← gets (λ u. u.procs.open_device)
    raise_if (not there) (not_loaded "USB_OpenDevice")
    (state_value, call_err) ← usb_call api.open_device
    guard (system_error "USB_OpenDevice" call_err)
    pure (not (ltb state_value 1))

  -- `UsbScan` and `UsbOpen`
  unfoldable pub is_scanned : Usb S → Bool × Usb S
  unfolding ensure_toomoss_loaded usb_scan
  is_scanned u = or_false ((ensure_toomoss_loaded >> usb_scan) u)

  unfoldable pub is_opened : Usb S → Bool × Usb S
  unfolding ensure_toomoss_loaded usb_open
  is_opened u = or_false ((ensure_toomoss_loaded >> usb_open) u)

  abbrev pub freed : UsbMethod S (Unit {0})
  freed u =
      let (done, l) = api.free_library u.library in
      (if done then ok tt else err free_failed, record u { library = l })

  abbrev pub close_if : Bool → UsbMethod S (Unit {0})
  close_if false = pure tt
  close_if true = do
    there ← gets (λ u. u.procs.close_device)
    raise_if (not there) (not_loaded "USB_CloseDevice")
    (ret, call_err) ← usb_call api.close_device
    guard (system_error "USB_CloseDevice" call_err)
    raise_if (ltb ret 1) (returned "USB_CloseDevice" ret)
    freed
    modify reset_toomoss_state

  unfoldable pub usb_close : UsbMethod S (Unit {0})
  unfolding reset_toomoss_state
  usb_close = gets (λ u. u.is_loaded) >>= close_if
