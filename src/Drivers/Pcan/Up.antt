-- ===== src/Drivers/Pcan/Up.antt =====
-- What the methods of driver/pcan.go leave alone.
use linbuskit.Base.{◌≡◌, ℕ, List, [], ◌∷◌, Bool, true, false}
use Prim.Native.String.{String}
use linbuskit.Drivers.Action.{modify}
use linbuskit.Drivers.Action.Preserves.{Preserves, Preserves-bind, Preserves-gets, preserves_rules}
use linbuskit.Drivers.Pcan.Device.{Pcan, PcanApi, PcanError, pcan_call, pcan_get}
use linbuskit.Drivers.Pcan.Config.{PcanConfig}
use linbuskit.Drivers.Pcan.Opening.{
  registered, register, counted, available_hardware, map_hardware, initialize_unless,
  connect_and_initialize,
}
use linbuskit.Drivers.Pcan.Lifetime.{initialize_all, initialize}

-- Not closed, and with the library loaded.
abbrev pub IsUp : {S : Type 0} → Pcan S → Type 0
IsUp p = (p.is_closed ≡ false) × (p.has_api ≡ true)

module _ {S : Type 0} (P : Pcan S → Type 0)
    (blind : (p : Pcan S) (s : S) → P p → P (record p { library = s })) where
  pub pcan_call-Preserves :
      (operation : String) (f : S → ℕ × S) → Preserves P (pcan_call operation f)
  unfolding pcan_call
  pcan_call-Preserves operation f = record { after = λ p h. blind p (f p.library).1 h }

  pub pcan_get-Preserves :
      {A : Type 0} (operation : String) (f : S → (ℕ × A) × S) → Preserves P (pcan_get operation f)
  unfolding pcan_get
  pcan_get-Preserves operation f = record { after = λ p h. blind p (f p.library).1 h }

module _ {S : Type 0} (api : PcanApi S) where
  call-IsUp : (operation : String) (f : S → ℕ × S) → Preserves IsUp (pcan_call operation f)
  call-IsUp = pcan_call-Preserves IsUp λ p s h. h

  get-IsUp :
      {A : Type 0} (operation : String) (f : S → (ℕ × A) × S)
      → Preserves IsUp (pcan_get operation f)
  get-IsUp = pcan_get-Preserves IsUp λ p s h. h

  registered-IsUp : (name : List ℕ) → Preserves IsUp (registered api name)
  registered-IsUp name = record { after = λ p h. h }

  counted-IsUp : Preserves IsUp (counted api)
  counted-IsUp = record { after = λ p h. h }

  map_hardware-IsUp :
      (config : PcanConfig) (available : List ℕ)
      → Preserves IsUp (map_hardware {S = S} config available)
  unfolding map_hardware
  map_hardware-IsUp config available = record { after = λ p h. h }

  initialize_unless-IsUp :
      (b : Bool) (hardware : ℕ) → Preserves IsUp (initialize_unless api b hardware)
  unfolding pcan_call
  initialize_unless-IsUp true hardware = record { after = λ p h. h }
  initialize_unless-IsUp false hardware = record { after = λ p h. h }

  modify-IsUp :
      (f : Pcan S → Pcan S)
      → ((p : Pcan S) → IsUp p → IsUp (f p))
      → Preserves {E = PcanError} IsUp (modify f)
  modify-IsUp f h = record { after = h }

  ruleset up_rules = (
    preserves_rules, call-IsUp, get-IsUp, registered-IsUp, counted-IsUp, map_hardware-IsUp,
    initialize_unless-IsUp,
  )

  register-IsUp : (name : List ℕ) → Preserves IsUp (register api name)
  unfolding register
  register-IsUp name = search up_rules depth 12

  available_hardware-IsUp : Preserves IsUp (available_hardware api)
  unfolding available_hardware
  available_hardware-IsUp = search up_rules depth 12

  connect-IsUp : (hardware : ℕ) → Preserves IsUp (connect_and_initialize api hardware)
  unfolding connect_and_initialize
  connect-IsUp hardware = search (up_rules, modify-IsUp) depth 14

  initialize_all-IsUp : (channels : List ℕ) → Preserves IsUp (initialize_all api channels)
  unfolding initialize_all
  initialize_all-IsUp [] = search up_rules
  initialize_all-IsUp (c ∷ rest) =
      Preserves-bind _ _ (Preserves-gets _)
        λ hardware. Preserves-bind _ _ (connect-IsUp hardware) λ a. initialize_all-IsUp rest

  pub initialize-IsUp : (config : PcanConfig) → Preserves IsUp (initialize api config)
  unfolding initialize
  initialize-IsUp config =
      search (up_rules, register-IsUp, available_hardware-IsUp, initialize_all-IsUp) depth 10
