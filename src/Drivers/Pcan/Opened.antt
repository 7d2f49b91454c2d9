-- ===== src/Drivers/Pcan/Opened.antt =====
-- What the constructor of driver/pcan.go leaves: an open driver that has connected one device for each
-- channel, or a closed one.
use linbuskit.Base.{
  ℕ, ◌≡◌, ◌∙◌, ap, subst, List, [], ◌∷◌, ◌++◌, append_assoc, append-nil, map, Option, none, some,
  Bool, true, false, ◌||◌, ◌==◌, if_elim, Result, ok, err,
}
use Prim.Native.String.{String}
use linbuskit.Drivers.Action.Ensures.{
  Returns, Ensures, Ensures-check, Ensures-raise_if, Ensures-modify, Ensures-read, Ensures-gets,
  Ensures-bind, Ensures-weaken,
}
use linbuskit.Drivers.Pcan.Device.{
  Pcan, PcanApi, PcanError, Table, find, pcan_call, pcan_get, failure_of, pcan_error_ok,
  pcan_error_buffer_insufficient,
}
use linbuskit.Drivers.Pcan.Config.{PcanConfig}
use linbuskit.Drivers.Pcan.Opening.{
  registered, register, counted, available_hardware, hardware_parameter, initialize_unless,
  connect_and_initialize,
}
use linbuskit.Drivers.Pcan.Lifetime.{or_zero, initialize_all}

module _ {S : Type 0} where
  -- A property of the driver that does not look at the library.
  abbrev pub IsBlind : (Pcan S → Type 0) → Type 0
  IsBlind P = (p : Pcan S) (s : S) → P p → P (record p { library = s })

  pub pcan_call-Ensures :
      (P : Pcan S → Type 0)
      → IsBlind P
      → (operation : String) (f : S → ℕ × S) → Ensures P (λ a p. P p) (pcan_call operation f)
  unfolding pcan_call
  pcan_call-Ensures P blind operation f = record {
    holds =
        λ p h. let (code, s') = f p.library in go p s' (failure_of operation code) (blind p s' h);
  }
    where
      go :
          (p : Pcan S) (s' : S) (o : Option PcanError)
          → P (record p { library = s' })
          → Returns
              (λ (a : Unit {0}) q. P q)
              (elim o [ none ↦ ok tt | some e ↦ err e ], record p { library = s' })
      go p s' none h = h
      go p s' (some e) h = tt

  pub pcan_get-Ensures :
      {A : Type 0} (P : Pcan S → Type 0)
      → IsBlind P
      → (operation : String) (f : S → (ℕ × A) × S) → Ensures P (λ a p. P p) (pcan_get operation f)
  unfolding pcan_get
  pcan_get-Ensures {A} P blind operation f = record {
    holds =
        λ p h. let (r, s') = f p.library in go p s' r.1 (failure_of operation r.0) (blind p s' h);
  }
    where
      go :
          (p : Pcan S) (s' : S) (a : A) (o : Option PcanError)
          → P (record p { library = s' })
          → Returns
              (λ (a : A) q. P q)
              (elim o [ none ↦ ok a | some e ↦ err e ], record p { library = s' })
      go p s' a none h = h
      go p s' a (some e) h = tt

-- The devices of channels, by a map.
abbrev pub handles_of : Table → List ℕ → List ℕ
handles_of t channels = map (λ c. or_zero (find c t)) channels

-- An open driver with these maps and connected devices, and empty queues.
abbrev pub IsOpen : {S : Type 0} → PcanConfig → Table → Table → List ℕ → Pcan S → Type 0
IsOpen config t u connected p =
    (p.is_closed ≡ false)
    × (p.has_api ≡ true)
    × (p.mode ≡ config.mode)
    × (p.baudrate ≡ config.baudrate)
    × (p.hardware_by_channel ≡ t)
    × (p.channel_by_hardware ≡ u)
    × (p.connected_hardware ≡ connected)
    × (p.event_chans ≡ [])

-- One that is also registered.
abbrev pub IsLive : {S : Type 0} → PcanConfig → Table → Table → List ℕ → Pcan S → Type 0
IsLive config t u connected p = IsOpen config t u connected p × ((p.client == 0) ≡ false)

module _ {S : Type 0} (api : PcanApi S) (config : PcanConfig) where
  registered-Ensures :
      (name : List ℕ)
      → Ensures (IsOpen config [] [] []) (λ a p. IsOpen config [] [] [] p) (registered api name)
  registered-Ensures name = record { holds = λ p h. h }

  pub register-Ensures :
      (name : List ℕ)
      → Ensures (IsOpen config [] [] []) (λ a p. IsLive config [] [] [] p) (register api name)
  unfolding register
  register-Ensures name = Ensures-bind _ _ (Ensures-check _) λ a.
      Ensures-bind _ _ (registered-Ensures name) λ code. Ensures-bind _ _ (Ensures-check _) λ a.
        Ensures-bind _ _ (Ensures-gets _) λ client.
          Ensures-weaken _ (λ a p h. (h.1.1, subst (λ c. (c == 0) ≡ false) h.1.0 h.0))
            (Ensures-raise_if (client == 0) _)

  module _ (t u : Table) (connected : List ℕ) where
    IsLive-blind : IsBlind (IsLive {S = S} config t u connected)
    IsLive-blind p s h = h

    hardware_parameter-Ensures :
        (hardware parameter : ℕ)
        → Ensures
            (IsLive config t u connected)
            (λ a p. IsLive config t u connected p)
            (hardware_parameter api hardware parameter)
    unfolding hardware_parameter
    hardware_parameter-Ensures hardware parameter = pcan_get-Ensures _ IsLive-blind _ _

    initialize_unless-Ensures :
        (b : Bool) (hardware : ℕ)
        → Ensures
            (IsLive config t u connected)
            (λ a p. IsLive config t u connected p)
            (initialize_unless api b hardware)
    initialize_unless-Ensures true hardware = record { holds = λ p h. h }
    initialize_unless-Ensures false hardware = record {
      holds = λ p h.
          (pcan_call-Ensures (IsLive config t u connected) IsLive-blind _
              (api.initialize_hardware p.client hardware p.mode p.baudrate)).holds
            p h;
    }

    pub available_hardware-Ensures :
        Ensures
          (IsLive config t u connected)
          (λ a p. IsLive config t u connected p)
          (available_hardware api)
    unfolding available_hardware
    available_hardware-Ensures = Ensures-bind _ _ counted-Ensures λ count.
        Ensures-bind _ _ (Ensures-check _) λ a. Ensures-bind _ _ (Ensures-check _) λ a.
          Ensures-bind _ _ (pcan_get-Ensures _ IsLive-blind _ _)
            λ r. Ensures-bind _ _ (Ensures-check _) λ a. record { holds = λ p h. h }
      where
        counted-Ensures :
            Ensures
              (IsLive config t u connected)
              (λ a p. IsLive config t u connected p)
              (counted api)
        counted-Ensures = record {
          holds = λ p h.
              if_elim
                (λ (r : Result PcanError ℕ).
                  Returns (λ a q. IsLive config t u connected q)
                    (r, record p { library = (api.count_hardware p.library).1 }))
                ((api.count_hardware p.library).0.0 == pcan_error_ok
                  || (api.count_hardware p.library).0.0 == pcan_error_buffer_insufficient)
                h tt;
        }

  connected_one :
      (t u : Table) (connected : List ℕ) (hardware : ℕ) (p : Pcan S)
      → IsLive config t u connected p
      → IsLive config t u
          (connected ++ hardware ∷ [])
          (record p { connected_hardware = p.connected_hardware ++ hardware ∷ [] })
  connected_one t u connected hardware p (h, client) =
      ((h.0, h.1, h.2, h.3, h.4, h.5, ap (λ l. l ++ hardware ∷ []) h.6, h.7), client)

  connect-Ensures :
      (t u : Table) (connected : List ℕ) (hardware : ℕ)
      → Ensures
          (IsLive config t u connected)
          (λ a p. IsLive config t u (connected ++ hardware ∷ []) p)
          (connect_and_initialize api hardware)
  unfolding connect_and_initialize
  connect-Ensures t u connected hardware =
      let now = connected ++ hardware ∷ [] in
      Ensures-bind _ _ (Ensures-read _) λ client.
        Ensures-bind _ _ (pcan_call-Ensures _ (IsLive-blind t u connected) _ _) λ a.
          Ensures-bind _ _ (Ensures-modify _ (connected_one t u connected hardware)) λ a.
            Ensures-bind _ _ (hardware_parameter-Ensures t u now hardware _) λ current_mode.
              Ensures-bind _ _ (hardware_parameter-Ensures t u now hardware _) λ current_baudrate.
                Ensures-bind _ _ (Ensures-read _) λ p.
                  Ensures-bind _ _ (initialize_unless-Ensures t u now _ hardware)
                    λ a. pcan_call-Ensures _ (IsLive-blind t u now) _ _

  pub initialize_all-Ensures :
      (t u : Table) (connected channels : List ℕ)
      → Ensures
          (IsLive config t u connected)
          (λ a p. IsLive config t u (connected ++ handles_of t channels) p)
          (initialize_all api channels)
  unfolding initialize_all
  initialize_all-Ensures t u connected [] = record { holds = λ p h. rw (append-nil connected) h }
  initialize_all-Ensures t u connected (c ∷ rest) =
      let hardware = or_zero (find c t) in
      Ensures-bind _ _ (Ensures-gets _) λ h. Ensures-bind _ _ (connect_one t u connected c h) λ a.
        Ensures-weaken _
          (λ a p live.
            subst (λ l. IsLive config t u l p)
              (append_assoc connected (hardware ∷ []) (handles_of t rest)) live)
          (initialize_all-Ensures t u (connected ++ hardware ∷ []) rest)
    where
      connect_one :
          (t u : Table) (connected : List ℕ) (c h : ℕ)
          → Ensures
              (λ p. (h ≡ or_zero (find c p.hardware_by_channel)) × IsLive config t u connected p)
              (λ a p. IsLive config t u (connected ++ or_zero (find c t) ∷ []) p)
              (connect_and_initialize api h)
      connect_one t u connected c h = record {
        holds = λ p live.
            let same : h ≡ or_zero (find c t) = live.0 ∙ ap (λ x. or_zero (find c x)) live.1.0.4 in
            subst
              (λ x.
                Returns (λ a q. IsLive config t u (connected ++ x ∷ []) q)
                  (connect_and_initialize api h p))
              same ((connect-Ensures t u connected h).holds p live.1);
      }
