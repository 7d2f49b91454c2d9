-- ===== src/Drivers/TsMaster/Break.antt =====
-- LinBreak of driver/tsmaster.go. Whether the TSMaster library has the procedure for a wake-up is part
-- of the library too.
use linbuskit.Base.{ℕ, List, [], ◌∷◌, Bool, true, false, ◌==◌, if◌then◌else◌, ok, err}
use linbuskit.Drivers.Action.{raise, gets, ◌>>=◌, ◌>>◌}
use linbuskit.Drivers.TsMaster.Methods.{
  TsMasterApi, no_channel, transmit_failed, Method, outgoing, validate_channel, check_transmit,
  transmit_lin,
}

-- tsapp_transmit_lin_wakeup_async, with the channel, the length, the interval and how often.
pub record WakeupApi (S : Type 0) : Type 0 where
  pub has_wakeup : S → Bool
  pub wakeup : ℕ → ℕ → ℕ → ℕ → S → ℕ × S

-- The channel that is asked for, or else the first of the driver.
abbrev pub break_channel : List ℕ → ℕ → ℕ
break_channel [] first = first
break_channel (channel ∷ rest) first = channel

module _ {S : Type 0} (api : TsMasterApi S) (wake : WakeupApi S) where
  abbrev pub wake_bus : ℕ → Method S (Unit {0})
  wake_bus channel d =
      let (code, s') = wake.wakeup channel 500 20 3 d.library in
      (if code == 0 then ok tt else err (transmit_failed code), record d { library = s' })

  abbrev pub send_break : Bool → ℕ → Method S (Unit {0})
  send_break true channel = wake_bus channel
  send_break false channel = do check_transmit api; transmit_lin api channel (outgoing 3 0 [])

  abbrev pub break_on : List ℕ → List ℕ → Method S (Unit {0})
  break_on given [] = raise no_channel
  break_on given (first ∷ rest) = do
    validate_channel (break_channel given first)
    there ← gets (λ d. wake.has_wakeup d.library)
    send_break there (break_channel given first)

  unfoldable pub lin_break : List ℕ → Method S (Unit {0})
  unfolding validate_channel
  lin_break given = gets (λ d. d.channels) >>= break_on given
