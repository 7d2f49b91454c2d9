-- ===== src/Drivers/Toomoss/Session/Running.antt =====
-- Whether an ELINS channel runs while ConfigureELINS of driver/toomoss.go sets up the channels one
-- after the other, and after it gave up.
use linbuskit.Base.{
  ℕ, ◌≡◌, refl, sym, ◌∙◌, arith, List, [], ◌∷◌, ◌++◌, Bool, true, false, ◌||◌, ◌==◌, if◌then◌else◌,
  Bool-cases, ◌⊎◌, ap, inl, inr, Result, ok, err, ==→eq, ==_refl,
}
use linbuskit.Drivers.Action.{gets, ◌>>=◌}
use linbuskit.Drivers.Channels.{occurs}
use linbuskit.Drivers.Elins.{ElinsConfig}
use linbuskit.Drivers.Toomoss.Device.{ToomossApi, ToomossError, Session, init_failed}
use linbuskit.Drivers.Toomoss.Session.Stopping.{
  StartsAndStops, CanStop, RunsBy, running-init, running-stop_each, library-stop_if,
}
use linbuskit.Drivers.Toomoss.Session.{
  has_failed, slave_mode, rollback, set_rev_time, unless_failed, init_each,
}

occurs-append : (c : ℕ) (xs ys : List ℕ) → occurs c (xs ++ ys) ≡ (occurs c xs || occurs c ys)
occurs-append c [] ys = refl
occurs-append c (x ∷ xs) ys = ground (arith, occurs-append c xs ys)

stopped : (i b : Bool) → (i ≡ true → b ≡ false) → (if i then false else (i || b)) ≡ b
stopped true b f = sym (f refl)
stopped false b f = refl

if_or : (same i b : Bool) → (if same then true else (i || b)) ≡ ((if same then true else i) || b)
if_or true i b = refl
if_or false i b = refl

shift :
    (same i r b : Bool)
    → ((if same then true else i) || (r || b)) ≡ (i || ((if same then true else r) || b))
shift true true r b = refl
shift true false r b = refl
shift false i r b = refl

occurs-head : (c : ℕ) (rest : List ℕ) → occurs c (c ∷ rest) ≡ true
occurs-head c rest = rw (==_refl c) refl

pub occurs-cons : (d c : ℕ) (rest : List ℕ) → occurs c rest ≡ true → occurs c (d ∷ rest) ≡ true
occurs-cons d c rest there = ground arith

module _ {S : Type 0} (api : ToomossApi S) (lib : StartsAndStops api) (c : ℕ) where
  -- What ConfigureELINS comes to from `s`, with some channels set up and others to come.
  abbrev pub Configures :
      List ℕ → List ℕ → Session S → Result ToomossError (Unit {0}) × Session S → Type 0
  Configures initialized rest s (err e, s') =
      (s'.device ≡ s.device)
      × ((e ≡ init_failed c) ⊎ RunsBy api lib c s.device.elins_channels s'.usb.library)
  Configures initialized rest s (ok a, s') =
      RunsBy api lib c s'.device.elins_channels s'.usb.library
      × (occurs c s'.device.elins_channels
          ≡ (occurs c initialized || (occurs c rest || occurs c s.device.elins_channels)))

  -- The channel runs if it has been set up, or did before, and these exclude each other.
  abbrev Started : List ℕ → Session S → Type 0
  Started initialized s =
      (lib.running s.usb.library c ≡ (occurs c initialized || occurs c s.device.elins_channels))
      × (occurs c initialized ≡ true → occurs c s.device.elins_channels ≡ false)
      × (s.usb.procs.elins_stop ≡ true)

  -- A channel that was not configured yet has been set up.
  Started-init :
      (channel : ℕ) (initialized : List ℕ) (s : Session S) (l : S)
      → Started initialized s
      → occurs channel s.device.elins_channels ≡ false
      → lib.running l c ≡ (if channel == c then true else lib.running s.usb.library c)
      → Started (channel ∷ initialized) (record s { usb = record s.usb { library = l } })
  Started-init channel initialized s l (runs, fresh, stop) new starts = (
    rw (starts, runs)
        (if_or (channel == c) (occurs c initialized) (occurs c s.device.elins_channels)),
    (λ i. elim (Bool-cases (channel == c)) [
      | inl same ↦ rw⁻¹ (==→eq channel c same) new
      | inr other ↦ fresh (ground arith)
    ]),
    stop,
  )

  -- A call after which the channel runs if it did before.
  Started-keeps :
      (initialized : List ℕ) (s : Session S) (l : S)
      → Started initialized s
      → lib.running l c ≡ lib.running s.usb.library c
      → Started initialized (record s { usb = record s.usb { library = l } })
  Started-keeps initialized s l (runs, fresh, stop) keeps = (keeps ∙ runs, fresh, stop)

  module _ (can : CanStop api c) where
    rollback-Configures :
        (initialized rest : List ℕ) (e : ToomossError) (s : Session S)
        → (e ≡ init_failed c) ⊎ Started initialized s
        → Configures initialized rest s (rollback api initialized e s)
    rollback-Configures initialized rest e s (inl failed) = (refl, inl failed)
    rollback-Configures initialized rest e s (inr (runs, fresh, stop)) = (
      refl,
      inr (
          rw (
            library-stop_if api lib c s.usb.procs.elins_stop initialized s.usb stop,
            running-stop_each api lib c initialized s.usb.library can,
            runs,
            stopped (occurs c initialized) (occurs c s.device.elins_channels) fresh,
          )),
    )

    -- The call that failed or not, and what comes after.
    unless_failed-Configures :
        (failed : Bool) (started initialized rest : List ℕ) (e : ToomossError)
        (next : Session S → Result ToomossError (Unit {0}) × Session S) (s : Session S)
        → (failed ≡ true → (e ≡ init_failed c) ⊎ Started started s)
        → (failed ≡ false → Configures initialized rest s (next s))
        → Configures initialized rest s (unless_failed api failed started e next s)
    unless_failed-Configures true started initialized rest e next s f g =
        rollback-Configures started rest e s (f refl)
    unless_failed-Configures false started initialized rest e next s f g = g refl

    -- A channel counts as one of those set up, or as one of those to come.
    Configures-tail :
        (channel : ℕ) (initialized rest : List ℕ) (s : Session S)
        (r : Result ToomossError (Unit {0}) × Session S)
        → Configures (channel ∷ initialized) rest s r
        → Configures initialized (channel ∷ rest) s r
    Configures-tail channel initialized rest s (err e, s') h = h
    Configures-tail channel initialized rest s (ok a, s') (runs, added) = (
      runs,
      added
          ∙ shift (channel == c) (occurs c initialized) (occurs c rest)
              (occurs c s.device.elins_channels),
    )

    -- `ELINS_SetRevTime`, if it is there, and then the other channels.
    set_rev_time-Configures :
        (there : Bool) (config : ElinsConfig) (channel : ℕ) (initialized rest : List ℕ)
        (s : Session S)
        → Started (channel ∷ initialized) s
        → ((l : S)
            → Started (channel ∷ initialized) (record s { usb = record s.usb { library = l } })
            → Configures (channel ∷ initialized) rest s (
                init_each api config
                  (channel ∷ initialized)
                  rest
                  (record s { usb = record s.usb { library = l } })))
        → Configures (channel ∷ initialized) rest s (
            (set_rev_time api there config.receive_timeout_us channel >>= λ failed.
            unless_failed api failed
              (channel ∷ initialized)
              (init_failed channel)
              (init_each api config (channel ∷ initialized) rest))
              s)
    unfolding ◌>>=◌
    set_rev_time-Configures false config channel initialized rest s started go =
        go s.usb.library started
    set_rev_time-Configures true config channel initialized rest s started go =
        let r = api.elins_set_rev_time channel config.receive_timeout_us s.usb.library in
        let kept =
          Started-keeps (channel ∷ initialized) s r.1 started
            (lib.set_keeps channel config.receive_timeout_us s.usb.library c) in
        unless_failed-Configures (has_failed r.0) (channel ∷ initialized) (channel ∷ initialized)
          rest (init_failed channel) (init_each api config (channel ∷ initialized) rest)
          (record s { usb = record s.usb { library = r.1 } }) (λ f. inr kept) (λ f. go r.1 kept)

    pub init_each-Configures :
        (config : ElinsConfig) (rest initialized : List ℕ) (s : Session S)
        → Started initialized s
        → ((x : ℕ) → occurs x rest ≡ true → occurs x s.device.elins_channels ≡ false)
        → Configures initialized rest s (init_each api config initialized rest s)
    unfolding init_each ◌>>=◌
    init_each-Configures config [] initialized s (runs, fresh, stop) new = (
      runs ∙ sym (occurs-append c initialized s.device.elins_channels),
      occurs-append c initialized s.device.elins_channels,
    )
    init_each-Configures config (channel ∷ rest) initialized s started new =
        let r =
          api.elins_init channel config.baudrate slave_mode config.res_enable config.version
            s.usb.library in
        let s1 : Session S = record s { usb = record s.usb { library = r.1 } } in
        let others =
          lib.init_leaves_others channel config.baudrate slave_mode config.res_enable config.version
            s.usb.library c in
        unless_failed-Configures (has_failed r.0) initialized initialized (channel ∷ rest)
          (init_failed channel)
          (gets (λ s. s.usb.procs.elins_set_rev_time) >>= λ there.
            set_rev_time api there config.receive_timeout_us channel >>= λ failed.
            unless_failed api failed (channel ∷ initialized) (init_failed channel)
              (init_each api config (channel ∷ initialized) rest))
          s1
          (λ f. elim (Bool-cases (channel == c)) [
            | inl same ↦ inl (ap (λ x. init_failed x) (==→eq channel c same))
            | inr other ↦ inr (Started-keeps initialized s r.1 started (others other))
          ])
          (λ f. Configures-tail channel initialized rest s1 _ (
            set_rev_time-Configures s.usb.procs.elins_set_rev_time config channel initialized rest
              s1
              (Started-init channel initialized s r.1 started
                (new channel (occurs-head channel rest))
                (running-init api lib c channel config.baudrate slave_mode config.res_enable
                  config.version s.usb.library f))
              (λ l starts.
                init_each-Configures config rest (channel ∷ initialized)
                  (record s { usb = record s.usb { library = l } }) starts
                  (λ x there. new x (occurs-cons channel x rest there)))))
