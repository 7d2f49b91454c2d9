-- ===== src/Drivers/Vector/Ready.antt =====
-- The result of NewVectorWithConfig in driver/vector.go.
use Prim.Native.String.{String}
use Prim.Native.Nat.{bit_and}
use linbuskit.Base.{ℕ, ◌≡◌, Option, some, true, false, ℤ, digit, if◌then◌else◌}
use linbuskit.Lin.{ChecksumType}
use linbuskit.Drivers.Action.{modify}
use linbuskit.Drivers.Action.Preserves.{Preserves, preserves_rules}
use linbuskit.Drivers.Action.Ensures.{Ensures}
use linbuskit.Drivers.Vector.Device.{
  Vector, VectorApi, VectorConfig, VectorChannel, VectorError, lookup, status_args, is_invalid_port,
}
use linbuskit.Drivers.Vector.Config.{Tables}
use linbuskit.Drivers.Vector.Opening.{
  VectorOpened, refused, abandoned, opened, resolved, channel_index, channel_mask, app_config,
  open_port, open_channels, close_port, fresh_vector,
}
use linbuskit.Drivers.Vector.Resolved.{IsConnected}

-- Not closed, and with the library loaded.
abbrev pub IsUp : {S : Type 0} → Vector S → Type 0
IsUp v = (v.is_closed ≡ false) × (v.has_api ≡ true)

module _ {S : Type 0} (P : Vector S → Type 0)
    (blind : (v : Vector S) (s : S) → P v → P (record v { library = s })) where
  status_args-Preserves :
      (operation : String) (f : S → ℕ × S) → Preserves P (status_args operation f)
  unfolding status_args
  status_args-Preserves operation f = record { after = λ v h. blind v (f v.library).1 h }

module _ {S : Type 0} (api : VectorApi S) where
  status-IsUp : (operation : String) (f : S → ℕ × S) → Preserves IsUp (status_args operation f)
  status-IsUp = status_args-Preserves IsUp λ v s h. h

  app_config-IsUp : (c : ℕ) → Preserves IsUp (app_config api c)
  app_config-IsUp c = record { after = λ v h. h }

  index-IsUp : (hw : ℤ × ℤ × ℤ) → Preserves IsUp (channel_index api hw)
  index-IsUp hw = record { after = λ v h. h }

  mask-IsUp : (hw : ℤ × ℤ × ℤ) → Preserves IsUp (channel_mask api hw)
  mask-IsUp hw = record { after = λ v h. h }

  open_port-IsUp : Preserves IsUp (open_port api)
  open_port-IsUp = record { after = λ v h. h }

  resolved-IsUp :
      (logical index mask : ℕ)
      → Preserves {E = VectorError} IsUp (modify (resolved {S = S} logical index mask))
  resolved-IsUp logical index mask = record { after = λ v h. h }

  permit-IsUp :
      Preserves {E = VectorError} IsUp
        (modify (λ (v : Vector S). record v { permission = v.access_mask }))
  permit-IsUp = record { after = λ v h. h }

  ruleset up_rules = (
    preserves_rules, status-IsUp, app_config-IsUp, index-IsUp, mask-IsUp, open_port-IsUp,
    resolved-IsUp, permit-IsUp,
  )

  module _ (config : VectorConfig) (dlc : ℕ → ℕ) (kinds : ℕ → ChecksumType) where
    -- Open, with the right to set up every channel: the library granted the bit of each.
    abbrev pub IsOpen : Vector S → Type 0
    IsOpen v =
        IsConnected api config dlc kinds v
        × (bit_and v.permission v.access_mask ≡ v.access_mask)
        × ((c : ℕ) (info : VectorChannel)
            → lookup c v.channel_info ≡ some info
            → digit info.index v.permission ≡ 1)

  -- The library after xlClosePort on the port of a driver, if it has one.
  abbrev pub port_closed : Vector S → S → S
  port_closed v l = if is_invalid_port v.port_handle then l else (api.close_port v.port_handle l).1

  -- `v'` is `v` after Close: it can do nothing any more, and the last calls of the library were
  -- xlClosePort on the port of `v`, if it had one, and xlCloseDriver.
  abbrev pub IsReleased : Vector S → Vector S → Type 0
  IsReleased v v' =
      (v'.is_closed ≡ true)
      × (is_invalid_port v'.port_handle ≡ true)
      × (l : S) × (v'.library ≡ (api.close_driver (port_closed v l)).1)

  -- The outcomes of a constructor. A driver that is given up is what Close leaves of the one that
  -- `open` left, on the library that was loaded.
  abbrev pub Outcome : Tables → Option S → VectorOpened S → Type 0
  Outcome tables loaded (refused e) = Unit {0}
  Outcome tables loaded (abandoned e v) =
      (s : S) × (loaded ≡ some s) × IsReleased (open_channels api (fresh_vector tables s)).1 v
  Outcome tables loaded (opened v) = IsOpen tables.0 tables.1 tables.2 v
