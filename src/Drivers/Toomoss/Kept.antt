-- ===== src/Drivers/Toomoss/Kept.antt =====
-- What the calls of driver/toomoss.go keep: whether an instance is active, and whether the library is
-- there with the procedures that the driver cannot do without.
use linbuskit.Base.{◌≡◌, refl, sym, Bool, true, false, ◌&&◌, not, if◌then◌else◌, Result, ok, err}
use linbuskit.Drivers.Action.{raise_if, modify}
use linbuskit.Drivers.Action.Preserves.{Preserves, preserves_rules}
use linbuskit.Drivers.Action.Ensures.{
  Ensures, Returns, Ensures-bind, Ensures-read, Ensures-check, Ensures-modify, Ensures-gets,
}
use linbuskit.Drivers.Toomoss.Device.{
  ToomossApi, ToomossError, load_failed, procs_missing, Usb, usb_call,
}
use linbuskit.Drivers.Toomoss.Usb.{
  toomoss_ready, reset_toomoss_state, loaded, load_unless, load_dlls, load_proc_addresses,
  or_unload, load_library_unless, free_if, freed, close_if, ensure_toomoss_loaded, usb_scan,
  usb_open, usb_close, has_required, get_procs,
}

both_true : (a b : Bool) → a ≡ true → b ≡ true → (a && b) ≡ true
both_true true b p q = q
both_true false b p q = p

module _ {S : Type 0} (api : ToomossApi S) where
  -- What does not look at the library is kept by a call that changes nothing else.
  module _ (P : Usb S → Type 0)
      (blind : (u : Usb S) (l : S) → P u → P (record u { library = l })) where
    pub usb_call-Blind : {A : Type 0} (f : S → A × S) → Preserves P (usb_call f)
    usb_call-Blind f = record { after = λ u h. blind u (f u.library).1 h }

    pub usb_scan-Blind : Preserves P (usb_scan api)
    unfolding usb_scan
    usb_scan-Blind = let called = usb_call-Blind api.scan_device in search preserves_rules depth 14

    pub usb_open-Blind : Preserves P (usb_open api)
    unfolding usb_open
    usb_open-Blind = let called = usb_call-Blind api.open_device in search preserves_rules depth 14

  module _ (b : Bool) where
    -- Whether there is an instance.
    abbrev pub Flag : Usb S → Type 0
    Flag u = u.instance_active ≡ b

    load_unless-Flag : (there : Bool) → Preserves Flag (load_unless api there)
    load_unless-Flag true = search preserves_rules
    load_unless-Flag false =
        let first : Preserves {E = ToomossError} Flag (usb_call api.load_libusb) = record {
          after = λ u h. h;
        } in
        let second : Preserves Flag (loaded api) = record { after = λ u h. h } in
        search preserves_rules depth 14

    load_dlls-Flag : Preserves Flag (load_dlls api)
    unfolding load_dlls
    load_dlls-Flag = let each = load_unless-Flag in search preserves_rules depth 14

    load_proc_addresses-Flag : Preserves Flag (load_proc_addresses api)
    unfolding load_proc_addresses
    load_proc_addresses-Flag =
        let looked : Preserves {E = ToomossError} Flag
            (modify (λ u. record u { procs = get_procs api u.library })) =
          record { after = λ u h. h } in
        search preserves_rules depth 14

    or_unload-Flag :
        (r : Result ToomossError (Unit {0})) (u : Usb S) → Flag u → Flag (or_unload api (r, u)).1
    unfolding reset_toomoss_state
    or_unload-Flag (ok a) u h = h
    or_unload-Flag (err e) u h =
        elim u.is_loaded as (λ c. Flag (reset_toomoss_state (free_if api c u))) [
          | true ↦ h
          | false ↦ h
        ]

    load_library_unless-Flag : (ready : Bool) → Preserves Flag (load_library_unless api ready)
    unfolding reset_toomoss_state
    load_library_unless-Flag true = search preserves_rules
    load_library_unless-Flag false =
        let reset : Preserves {E = ToomossError} Flag (modify reset_toomoss_state) = record {
          after = λ u h. h;
        } in
        let dlls = load_dlls-Flag in
        let addresses : Preserves Flag (λ u. or_unload api (load_proc_addresses api u)) = record {
          after = λ u h.
              let (r, u') = load_proc_addresses api u in
              or_unload-Flag r u' (load_proc_addresses-Flag.after u h);
        } in
        search preserves_rules depth 14

    pub ensure_toomoss_loaded-Flag : Preserves Flag (ensure_toomoss_loaded api)
    unfolding ensure_toomoss_loaded
    ensure_toomoss_loaded-Flag =
        let each = load_library_unless-Flag in search preserves_rules depth 14

    close_if-Flag : (loaded : Bool) → Preserves Flag (close_if api loaded)
    unfolding reset_toomoss_state
    close_if-Flag false = search preserves_rules
    close_if-Flag true =
        let closed : Preserves {E = ToomossError} Flag (usb_call api.close_device) = record {
          after = λ u h. h;
        } in
        let released : Preserves Flag (freed api) = record { after = λ u h. h } in
        let reset : Preserves {E = ToomossError} Flag (modify reset_toomoss_state) = record {
          after = λ u h. h;
        } in
        search preserves_rules depth 14

    pub usb_close-Flag : Preserves Flag (usb_close api)
    unfolding usb_close
    usb_close-Flag = let each = close_if-Flag in search preserves_rules depth 14

  -- The library is there, with the procedures.
  abbrev pub Ready : Usb S → Type 0
  Ready u = toomoss_ready u ≡ true

  abbrev There : Unit {0} → Usb S → Type 0
  There a u = u.is_loaded ≡ true

  loaded-There : Ensures (λ u. Unit {0}) There (loaded api)
  loaded-There = record {
    holds = λ u h. let (there, l) = api.load_usb2xxx u.library in go u there l;
  }
    where
      go :
          (u : Usb S) (there : Bool) (l : S)
          → Returns There (
            if there then ok tt else err load_failed,
            record u { is_loaded = there; library = l },
          )
      go u true l = refl
      go u false l = tt

  load_dlls-There : Ensures (λ u. Unit {0}) There (load_dlls api)
  unfolding load_dlls
  load_dlls-There = Ensures-bind _ _ (Ensures-gets {P = λ u. Unit {0}} (λ u. u.is_loaded)) λ b. go b
    where
      go : (b : Bool) → Ensures (λ u. (b ≡ u.is_loaded) × Unit {0}) There (load_unless api b)
      go true = record { holds = λ u (same, a). sym same }
      go false = Ensures-bind _ _ (record { holds = λ u h. tt }) λ a. loaded-There

  load_proc_addresses-Ready : Ensures (There tt) (λ a u. Ready u) (load_proc_addresses api)
  unfolding load_proc_addresses toomoss_ready
  load_proc_addresses-Ready = Ensures-bind _ _ (Ensures-read {P = There tt} (λ u. u.is_loaded)) λ b.
      Ensures-bind _ _ (Ensures-check {P = There tt} _) λ a.
        Ensures-bind _ _
          (Ensures-modify {P = There tt} {Q = There tt}
            (λ u. record u { procs = get_procs api u.library }) (λ u h. h))
          λ a.
            Ensures-bind _ _ (Ensures-gets {P = There tt} (λ u. has_required u.procs))
              λ required. go required
    where
      go :
          (required : Bool)
          → Ensures
              (λ (u : Usb S). (required ≡ has_required u.procs) × There tt u)
              (λ a u. Ready u)
              (raise_if (not required) procs_missing)
      go true = record {
        holds = λ u (same, there). both_true u.is_loaded (has_required u.procs) there (sym same);
      }
      go false = record { holds = λ u h. tt }

  or_unload-Ready :
      (r : Result ToomossError (Unit {0})) (u : Usb S)
      → Returns (λ (a : Unit {0}) u. Ready u) (r, u)
      → Returns (λ (a : Unit {0}) u. Ready u) (or_unload api (r, u))
  or_unload-Ready (ok a) u h = h
  or_unload-Ready (err e) u h = tt

  pub ensure_toomoss_loaded-Ready :
      Ensures (λ u. Unit {0}) (λ a u. Ready u) (ensure_toomoss_loaded api)
  unfolding ensure_toomoss_loaded
  ensure_toomoss_loaded-Ready =
      Ensures-bind _ _ (Ensures-gets {P = λ u. Unit {0}} toomoss_ready) λ b. go b
    where
      go :
          (b : Bool)
          → Ensures
              (λ u. (b ≡ toomoss_ready u) × Unit {0})
              (λ a u. Ready u)
              (load_library_unless api b)
      go true = record { holds = λ u (same, a). sym same }
      go false =
          Ensures-bind _ _ (record { holds = λ u h. tt })
            λ a. Ensures-bind _ _ load_dlls-There λ a. record {
              holds = λ u h.
                  let (r, u') = load_proc_addresses api u in
                  or_unload-Ready r u' (load_proc_addresses-Ready.holds u h);
            }
