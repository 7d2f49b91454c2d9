-- ===== src/Drivers/Pcan/Ready.antt =====
-- The result of NewPCANWithConfig in driver/pcan.go.
use linbuskit.Base.{
  ℕ, ◌≡◌, refl, ap, List, [], ◌∷◌, Option, some, Bool, true, false, ◌==◌, All, ==→eq, if◌then◌else◌,
}
use linbuskit.Drivers.Action.Ensures.{Ensures}
use linbuskit.Drivers.Pcan.Device.{Pcan, PcanApi, pcan_call}
use linbuskit.Drivers.Pcan.Config.{PcanConfig}
use linbuskit.Drivers.Pcan.Opening.{sorted}
use linbuskit.Drivers.Pcan.Mapped.{IsInverse, IsMapped}
use linbuskit.Drivers.Pcan.Lifetime.{
  Opened, refused, abandoned, opened, fresh_pcan, initialize, close, release_client, disconnect_all,
}
use linbuskit.Drivers.Pcan.Opened.{IsLive, handles_of}

-- Each channel has a device of its own, and these devices are connected, in the channels' order.
abbrev pub IsConnected : {S : Type 0} → PcanConfig → Pcan S → Type 0
IsConnected config p =
    IsLive config p.hardware_by_channel p.channel_by_hardware
      (handles_of p.hardware_by_channel config.channels) p
    × IsInverse p.hardware_by_channel p.channel_by_hardware
    × All (IsMapped p.hardware_by_channel) config.channels

module _ {S : Type 0} (api : PcanApi S) where
  abbrev IsMappedAll : PcanConfig → Pcan S → Type 0
  IsMappedAll config p =
      IsLive config p.hardware_by_channel p.channel_by_hardware [] p
      × IsInverse p.hardware_by_channel p.channel_by_hardware
      × All (IsMapped p.hardware_by_channel) config.channels

  -- The library after LIN_RemoveClient with the client of a driver, if it has one.
  abbrev pub client_removed : Pcan S → S → S
  client_removed p l = if p.client == 0 then l else (api.remove_client p.client l).1

  -- `p'` is `p` after Close: it can do nothing any more, and the last calls were LIN_RemoveClient with
  -- the client of `p`, if it had one, and FreeLibrary.
  abbrev pub IsReleased : Pcan S → Pcan S → Type 0
  IsReleased p p' =
      (p'.is_closed ≡ true)
      × (p'.has_api ≡ false)
      × (p'.client ≡ 0)
      × (l : S) × (p'.library ≡ (api.free_library (client_removed p l)).1)

  disconnect_all-keeps :
      (hs : List ℕ) (p : Pcan S)
      → let p' = (disconnect_all api hs p).1 in
        (p'.is_closed ≡ p.is_closed) × (p'.client ≡ p.client)
  unfolding disconnect_all pcan_call
  disconnect_all-keeps [] p = (refl, refl)
  disconnect_all-keeps (h ∷ hs) p =
      disconnect_all-keeps hs
        (record p { library = (api.disconnect_client p.client h p.library).1 })

  pub release_client-keeps :
      (b : Bool) (p : Pcan S)
      → (p.client == 0) ≡ b
      → let p' = (release_client api b p).1 in
        (p'.is_closed ≡ p.is_closed) × (p'.client ≡ 0) × (l : S) × (p'.library ≡ client_removed p l)
  unfolding pcan_call
  release_client-keeps true p none_left =
      (refl, ==→eq p.client 0 none_left, p.library, rw none_left refl)
  release_client-keeps false p client =
      let kept = disconnect_all-keeps (sorted p.connected_hardware) p in
      let u = (disconnect_all api (sorted p.connected_hardware) p).1 in
      (kept.0, refl, u.library, rw (client, kept.1) refl)

  pub close-IsReleased :
      (p : Pcan S) → p.is_closed ≡ false → p.has_api ≡ true → IsReleased p (close api p).1
  unfolding close
  close-IsReleased p h there =
      let (a, b, l, e) =
        release_client-keeps (p.client == 0) (record p { is_closed = true; has_api = true }) refl in
      simp (h, there, close) (a, refl, b, l, ap (λ x. (api.free_library x).1) e)

  -- The outcomes of the constructor. A driver that is given up is what Close leaves of the one that
  -- `initialize` left, on the library that was loaded.
  abbrev pub Outcome : PcanConfig → Option S → Opened S → Type 0
  Outcome config loaded (refused e) = Unit {0}
  Outcome config loaded (abandoned e p) =
      (s : S) × (loaded ≡ some s) × IsReleased (initialize api config (fresh_pcan config s)).1 p
  Outcome config loaded (opened p) = IsConnected config p
