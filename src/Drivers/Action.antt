-- ===== src/Drivers/Action.antt =====
-- Methods of a device driver: they change the driver and what the vendor's library keeps, and return
-- a value or an error. What was changed before an error stays changed. A loop is `repeat` on a turn.
pub mod Preserves
pub mod Repeat
pub mod Ensures
use linbuskit.Base.{
  ◌≡◌, refl, ℕ, zero, suc, List, [], ◌∷◌, Option, none, some, Bool, true, false, if◌then◌else◌,
  Result, ok, err,
}

abbrev pub Action : Type 0 → Type 0 → Type 0 → Type 0
Action S E A = S → Result E A × S

module _ {S E A : Type 0} where
  abbrev pub pure : A → Action S E A
  pure a s = (ok a, s)

  abbrev pub raise : E → Action S E A
  raise e s = (err e, s)

  abbrev pub lift : Result E A → Action S E A
  lift r s = (r, s)

  abbrev pub gets : (S → A) → Action S E A
  gets f s = (ok (f s), s)

  abbrev pub or_raise : Option A → E → Action S E A
  or_raise none e s = (err e, s)
  or_raise (some a) e s = (ok a, s)

module _ {S E : Type 0} where
  abbrev pub modify : (S → S) → Action S E (Unit {0})
  modify f s = (ok tt, f s)

  abbrev pub guard : Option E → Action S E (Unit {0})
  guard none s = (ok tt, s)
  guard (some e) s = (err e, s)

module _ {S E A B : Type 0} where
  abbrev pub continue : Result E A → (A → Action S E B) → Action S E B
  continue (ok a) f s = f a s
  continue (err e) f s = (err e, s)

  infixl 10 ◌>>=◌ ◌>>◌
  unfoldable pub ◌>>=◌ : Action S E A → (A → Action S E B) → Action S E B
  ◌>>=◌ m f s = let (r, s') = m s in continue r f s'

  abbrev pub ◌>>◌ : Action S E A → Action S E B → Action S E B
  m >> n = m >>= λ _. n

-- A test that fails with an error.
abbrev pub raise_if : {S E : Type 0} → Bool → E → Action S E (Unit {0})
raise_if c e = guard (if c then some e else none)

-- A method whose first part fails fails with it.
pub bind_err :
    {S E A B : Type 0} (m : Action S E A) (f : A → Action S E B) {e : E} {s s' : S}
    → m s ≡ (err e, s')
    → (m >>= f) s ≡ (err e, s')
unfolding ◌>>=◌
bind_err m f h = rw h

module _ {S E B : Type 0} (P : Result E B × S → Type 0) where
  -- What a test leaves to show, if it fails and if not.
  pub guard_then :
      (o : Option E) (f : Unit {0} → Action S E B) (s : S)
      → ((e : E) → P (err e, s))
      → (o ≡ none → P (f tt s))
      → P ((guard o >>= f) s)
  unfolding ◌>>=◌
  guard_then none f s failed passed = passed refl
  guard_then (some e) f s failed passed = failed e

  pub raise_if_then :
      (c : Bool) (e : E) (f : Unit {0} → Action S E B) (s : S)
      → P (err e, s)
      → (c ≡ false → P (f tt s))
      → P ((raise_if c e >>= f) s)
  unfolding ◌>>=◌
  raise_if_then true e f s failed passed = failed
  raise_if_then false e f s failed passed = passed refl
