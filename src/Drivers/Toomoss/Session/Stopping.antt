-- ===== src/Drivers/Toomoss/Session/Stopping.antt =====
-- Which ELINS channels run after calls of the library in driver/toomoss.go, and after Close stops them.
use linbuskit.Base.{
  ℕ, ◌≡◌, refl, sym, subst, arith, List, [], ◌∷◌, Bool, true, false, ◌==◌, if◌then◌else◌,
  Bool-cases, inl, inr, ==→eq,
}
use linbuskit.Drivers.Channels.{occurs}
use linbuskit.Drivers.Toomoss.Device.{ToomossApi, Usb}
use linbuskit.Drivers.Toomoss.Lifetime.{stop_each, stop_if}
use linbuskit.Drivers.Toomoss.Session.{has_failed}

-- What the library does: a channel runs after a call of ELINS_Init for it that succeeds, and does not
-- after one of ELINS_Stop that succeeds. The calls for a channel leave the others as they are, the one
-- that sets its time leaves it too, and to release the device or the library starts none.
pub record StartsAndStops {S : Type 0} (api : ToomossApi S) : Type 0 where
  pub running : S → ℕ → Bool
  pub init_starts :
      (channel baudrate mode res version : ℕ) (l : S)
      → has_failed (api.elins_init channel baudrate mode res version l).0 ≡ false
      → running (api.elins_init channel baudrate mode res version l).1 channel ≡ true
  pub init_leaves_others :
      (channel baudrate mode res version : ℕ) (l : S) (c : ℕ)
      → (channel == c) ≡ false
      → running (api.elins_init channel baudrate mode res version l).1 c ≡ running l c
  pub set_keeps :
      (channel time : ℕ) (l : S) (c : ℕ)
      → running (api.elins_set_rev_time channel time l).1 c ≡ running l c
  pub stop_stops :
      (channel : ℕ) (l : S)
      → has_failed (api.elins_stop channel l).0 ≡ false
      → running (api.elins_stop channel l).1 channel ≡ false
  pub stop_leaves_others :
      (channel : ℕ) (l : S) (c : ℕ)
      → (channel == c) ≡ false
      → running (api.elins_stop channel l).1 c ≡ running l c
  pub close_starts_none :
      (l : S) (c : ℕ) → running l c ≡ false → running (api.close_device l).1 c ≡ false
  pub free_starts_none :
      (l : S) (c : ℕ) → running l c ≡ false → running (api.free_library l).1 c ≡ false

-- ELINS_Stop succeeds for a channel, in every state of the library.
abbrev pub CanStop : {S : Type 0} → ToomossApi S → ℕ → Type 0
CanStop {S} api c = (l : S) → has_failed (api.elins_stop c l).0 ≡ false

module _ {S : Type 0} (api : ToomossApi S) (lib : StartsAndStops api) (c : ℕ) where
  -- The channel runs exactly if it is one of the list.
  abbrev pub RunsBy : List ℕ → S → Type 0
  RunsBy xs l = lib.running l c ≡ occurs c xs

  pub running-init :
      (channel baudrate mode res version : ℕ) (l : S)
      → has_failed (api.elins_init channel baudrate mode res version l).0 ≡ false
      → lib.running (api.elins_init channel baudrate mode res version l).1 c
        ≡ (if channel == c then true else lib.running l c)
  running-init channel baudrate mode res version l done = elim (Bool-cases (channel == c)) [
    | inl same ↦ rw same (
        subst
          (λ (x : ℕ). lib.running (api.elins_init channel baudrate mode res version l).1 x ≡ true)
          (==→eq channel c same) (lib.init_starts channel baudrate mode res version l done))
    | inr other ↦ rw other (lib.init_leaves_others channel baudrate mode res version l c other)
  ]

  running-elins_stop :
      (x : ℕ) (l : S)
      → CanStop api c
      → lib.running (api.elins_stop x l).1 c ≡ (if x == c then false else lib.running l c)
  running-elins_stop x l can = elim (Bool-cases (x == c)) [
    | inl same ↦ rw same (
        subst (λ (y : ℕ). lib.running (api.elins_stop y l).1 c ≡ false) (sym (==→eq x c same))
          (lib.stop_stops c l (can l)))
    | inr other ↦ rw other (lib.stop_leaves_others x l c other)
  ]

  pub running-stop_each :
      (xs : List ℕ) (l : S)
      → CanStop api c
      → lib.running (stop_each api xs l) c ≡ (if occurs c xs then false else lib.running l c)
  unfolding stop_each
  running-stop_each [] l can = refl
  running-stop_each (x ∷ xs) l can =
      ground (arith, running-stop_each xs (api.elins_stop x l).1 can, running-elins_stop x l can)

  pub library-stop_if :
      (there : Bool) (xs : List ℕ) (u : Usb S)
      → there ≡ true
      → (stop_if api there xs u).library ≡ stop_each api xs u.library
  library-stop_if true xs u t = refl
  library-stop_if false xs u t = cc
