-- ===== src/Drivers/Toomoss/Created.antt =====
-- NewToomoss of driver/toomoss.go: the instance and the library when it returns.
use linbuskit.Base.{
  ℕ, ◌≡◌, refl, sym, subst, List, [], ◌∷◌, Bool, true, false, ◌==◌, ◌∙◌, if_elim, Result, ok, err,
}
use linbuskit.Drivers.Action.{continue, modify, pure, raise_if_then, ◌>>=◌, ◌>>◌}
use linbuskit.Drivers.Action.Preserves.{Preserves, preserves_rules}
use linbuskit.Drivers.Action.Ensures.{
  Ensures, Returns, Ensures-bind, Ensures-check, Preserves-Ensures,
}
use linbuskit.Drivers.Toomoss.Device.{
  ToomossApi, ToomossError, already_active, scan_failed, open_failed, Usb, Toomoss, UsbMethod,
}
use linbuskit.Drivers.Toomoss.Usb.{
  toomoss_ready, load_library_unless, ensure_toomoss_loaded, usb_scan, usb_open, is_scanned,
  is_opened, or_false,
}
use linbuskit.Drivers.Toomoss.Lifetime.{
  baudrate, fresh_device, test, init_error, init_channels, set_up, new_toomoss,
}
use linbuskit.Drivers.Toomoss.Kept.{
  Flag, Ready, usb_call-Blind, usb_scan-Blind, usb_open-Blind, ensure_toomoss_loaded-Flag,
  ensure_toomoss_loaded-Ready, usb_close-Flag,
}

module _ {S : Type 0} (api : ToomossApi S) where
  Flag-blind : (b : Bool) (u : Usb S) (l : S) → Flag api b u → Flag api b (record u { library = l })
  Flag-blind b u l h = h

  Ready-blind : (u : Usb S) (l : S) → Ready api u → Ready api (record u { library = l })
  unfolding toomoss_ready
  Ready-blind u l h = h

  ensure_toomoss_loaded-keeps_Ready : Preserves (Ready api) (ensure_toomoss_loaded api)
  unfolding ensure_toomoss_loaded ◌>>=◌
  ensure_toomoss_loaded-keeps_Ready = record {
    after = λ u h. subst (λ (c : Bool). Ready api (load_library_unless api c u).1) (sym h) h;
  }

  or_false-Keeps :
      (P : Usb S → Type 0) (m : UsbMethod S Bool)
      → Preserves P m
      → (u : Usb S) → P u
      → P (or_false (m u)).1
  or_false-Keeps P m h u p = go (m u) (h.after u p)
    where
      go : (r : Result ToomossError Bool × Usb S) → P r.1 → P (or_false r).1
      go (ok b, u) p = p
      go (err e, u) p = p

  -- UsbScan and UsbOpen.
  module _ (P : Usb S → Type 0) (blind : (u : Usb S) (l : S) → P u → P (record u { library = l }))
      (loads : Preserves P (ensure_toomoss_loaded api)) where
    is_scanned-Keeps : (u : Usb S) → P u → P (is_scanned api u).1
    unfolding is_scanned
    is_scanned-Keeps =
        let scans = usb_scan-Blind api P blind in
        or_false-Keeps P (ensure_toomoss_loaded api >> usb_scan api) (search preserves_rules)

    is_opened-Keeps : (u : Usb S) → P u → P (is_opened api u).1
    unfolding is_opened
    is_opened-Keeps =
        let opens = usb_open-Blind api P blind in
        or_false-Keeps P (ensure_toomoss_loaded api >> usb_open api) (search preserves_rules)

  pub is_scanned-Flag : (b : Bool) (u : Usb S) → Flag api b u → Flag api b (is_scanned api u).1
  is_scanned-Flag b =
      is_scanned-Keeps (Flag api b) (Flag-blind b) (ensure_toomoss_loaded-Flag api b)

  pub is_opened-Flag : (b : Bool) (u : Usb S) → Flag api b u → Flag api b (is_opened api u).1
  is_opened-Flag b = is_opened-Keeps (Flag api b) (Flag-blind b) (ensure_toomoss_loaded-Flag api b)

  pub is_scanned-Ready : (u : Usb S) → Ready api u → Ready api (is_scanned api u).1
  is_scanned-Ready = is_scanned-Keeps (Ready api) Ready-blind ensure_toomoss_loaded-keeps_Ready

  pub is_opened-Ready : (u : Usb S) → Ready api u → Ready api (is_opened api u).1
  is_opened-Ready = is_opened-Keeps (Ready api) Ready-blind ensure_toomoss_loaded-keeps_Ready

  test-Keeps :
      (P : Usb S → Type 0) (f : Usb S → Bool × Usb S) (e : ToomossError)
      → ((u : Usb S) → P u → P (f u).1)
      → Preserves P (test api f e)
  test-Keeps P f e h = record { after = h }

  init_error-Flag :
      (b : Bool) (channel ret : ℕ) → Preserves (Flag api b) (init_error api channel ret)
  init_error-Flag b channel ret = record {
    after = λ u h.
        if_elim (λ (r : Result ToomossError (Unit {0}) × Usb S). Flag api b r.1) (ret == 0) h
          ((usb_close-Flag api b).after u h);
  }

  init_channels-Flag :
      (b : Bool) (mode : ℕ) (channels : List ℕ)
      → Preserves (Flag api b) (init_channels api mode channels)
  unfolding init_channels
  init_channels-Flag b mode [] = search preserves_rules
  init_channels-Flag b mode (channel ∷ rest) =
      let called =
        usb_call-Blind api (Flag api b) (Flag-blind b) (api.lin_ex_init channel baudrate mode) in
      let failed = init_error-Flag b channel in
      let others = init_channels-Flag b mode rest in search preserves_rules depth 14

  set_up-Flag :
      (b : Bool) (channels : List ℕ) (mode : ℕ) → Preserves (Flag api b) (set_up api channels mode)
  set_up-Flag b channels mode =
      let loads = ensure_toomoss_loaded-Flag api b in
      let scanned = test-Keeps (Flag api b) (is_scanned api) scan_failed (is_scanned-Flag b) in
      let opened = test-Keeps (Flag api b) (is_opened api) open_failed (is_opened-Flag b) in
      let channels_set = init_channels-Flag b mode channels in search preserves_rules depth 14

  init_error-Ready :
      (channel ret : ℕ) → Ensures (Ready api) (λ a u. Ready api u) (init_error api channel ret)
  init_error-Ready channel ret = record {
    holds = λ u h. if_elim (Returns (λ (a : Unit {0}) u. Ready api u)) (ret == 0) h tt;
  }

  init_channels-Ready :
      (mode : ℕ) (channels : List ℕ)
      → Ensures (Ready api) (λ a u. Ready api u) (init_channels api mode channels)
  unfolding init_channels
  init_channels-Ready mode [] = record { holds = λ u h. h }
  init_channels-Ready mode (channel ∷ rest) =
      Ensures-bind _ _
        (Preserves-Ensures _
          (usb_call-Blind api (Ready api) Ready-blind (api.lin_ex_init channel baudrate mode)))
        λ ret. Ensures-bind _ _ (init_error-Ready channel ret) λ a. init_channels-Ready mode rest

  set_up-Ready :
      (channels : List ℕ) (mode : ℕ)
      → Ensures (λ u. Unit {0}) (λ a u. Ready api u) (set_up api channels mode)
  set_up-Ready channels mode = Ensures-bind _ _ (Ensures-check {P = λ u. Unit {0}} _) λ a.
      Ensures-bind _ _ (ensure_toomoss_loaded-Ready api) λ a.
        Ensures-bind _ _
          (Preserves-Ensures _
            (test-Keeps (Ready api) (is_scanned api) scan_failed is_scanned-Ready))
          λ a.
            Ensures-bind _ _
              (Preserves-Ensures _
                (test-Keeps (Ready api) (is_opened api) open_failed is_opened-Ready))
              λ a. init_channels-Ready mode channels

  -- NewToomoss succeeds only if no instance was active, with an open device, an active instance and a
  -- library that is ready; if it fails, an instance is active only if one was.
  abbrev pub Created : Usb S → Result ToomossError Toomoss × Usb S → Type 0
  Created u (ok d, u') =
      (u.instance_active ≡ false)
      × (u'.instance_active ≡ true)
      × Ready api u'
      × (d.is_closed ≡ false)
  Created u (err e, u') =
      (u'.instance_active ≡ u.instance_active)
      × (u.instance_active ≡ true → Ready api u → Ready api u')

  pub new_toomoss-Created :
      (channels : List ℕ) (mode : ℕ) (u : Usb S) → Created u (new_toomoss api channels mode u)
  unfolding new_toomoss ◌>>=◌ toomoss_ready
  new_toomoss-Created channels mode u =
      raise_if_then (Created u) u.instance_active already_active _ u (refl, λ active ready. ready)
        (λ idle.
          go idle (set_up api channels mode u) ((set_up-Flag false channels mode).after u idle)
            ((set_up-Ready channels mode).holds u tt))
    where
      go :
          u.instance_active ≡ false
          → (r : Result ToomossError (Unit {0}) × Usb S) → Flag api false r.1
          → Returns (λ (a : Unit {0}) u. Ready api u) r
          → Created u (
              continue r.0
                (λ a.
                  modify (λ u. record u { instance_active = true }) >> pure (fresh_device channels))
                r.1)
      go idle (ok a, u') flag ready = (idle, refl, ready, refl)
      go idle (err e, u') flag ready = (flag ∙ sym idle, (λ active. cc))
