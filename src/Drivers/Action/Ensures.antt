-- ===== src/Drivers/Action/Ensures.antt =====
-- What a method that returns leaves behind.
use linbuskit.Base.{◌≡◌, refl, Option, none, some, Bool, true, false, Result, ok, err}
use linbuskit.Drivers.Action.Preserves.{Preserves}
use linbuskit.Drivers.Action.{Action, gets, modify, guard, raise_if, continue, ◌>>=◌}

abbrev pub Returns : {S E A : Type 0} → (A → S → Type 0) → Result E A × S → Type 0
Returns Q (ok a, s) = Q a s
Returns Q (err e, s) = Unit {0}

-- From a state with `P`, the method fails or returns with `Q`.
pub record Ensures {S E A : Type 0} (P : S → Type 0) (Q : A → S → Type 0) (m : Action S E A)
    : Type 0 where
  pub holds : (s : S) → P s → Returns Q (m s)

module _ {S E : Type 0} {P : S → Type 0} where
  pub Ensures-guard : (o : Option E) → Ensures P (λ a s. (o ≡ none) × P s) (guard o)
  Ensures-guard none = record { holds = λ s p. (refl, p) }
  Ensures-guard (some e) = record { holds = λ s p. tt }

  pub Ensures-check : (o : Option E) → Ensures P (λ a s. P s) (guard o)
  Ensures-check none = record { holds = λ s p. p }
  Ensures-check (some e) = record { holds = λ s p. tt }

  pub Ensures-raise_if : (c : Bool) (e : E) → Ensures P (λ a s. (c ≡ false) × P s) (raise_if c e)
  Ensures-raise_if true e = record { holds = λ s p. tt }
  Ensures-raise_if false e = record { holds = λ s p. (refl, p) }

  pub Ensures-modify :
      {Q : S → Type 0} (f : S → S)
      → ((s : S) → P s → Q (f s))
      → Ensures {E = E} P (λ a s. Q s) (modify f)
  Ensures-modify f h = record { holds = h }

module _ {S E A : Type 0} {P : S → Type 0} where
  pub Ensures-read : (f : S → A) → Ensures {E = E} P (λ a s. P s) (gets f)
  Ensures-read f = record { holds = λ s p. p }

  pub Ensures-gets : (f : S → A) → Ensures {E = E} P (λ a s. (a ≡ f s) × P s) (gets f)
  Ensures-gets f = record { holds = λ s p. (refl, p) }

module _ {S E A B : Type 0} {Q : A → S → Type 0} {R : B → S → Type 0} where
  Returns-continue :
      (r : Result E A) (f : A → Action S E B) (s : S)
      → Returns Q (r, s)
      → ((a : A) → Ensures (Q a) R (f a))
      → Returns R (continue r f s)
  Returns-continue (ok a) f s q hf = (hf a).holds s q
  Returns-continue (err e) f s q hf = tt

module _ {S E A B : Type 0} {P : S → Type 0} {Q : A → S → Type 0} {R : B → S → Type 0} where
  pub Ensures-bind :
      (m : Action S E A) (f : A → Action S E B)
      → Ensures P Q m
      → ((a : A) → Ensures (Q a) R (f a))
      → Ensures P R (m >>= f)
  unfolding ◌>>=◌
  Ensures-bind m f hm hf = record {
    holds = λ s p. let (r, s') = m s in Returns-continue r f s' (hm.holds s p) hf;
  }

module _ {S E A : Type 0} {P : S → Type 0} {Q R : A → S → Type 0} where
  pub Ensures-weaken :
      (m : Action S E A) → ((a : A) (s : S) → Q a s → R a s) → Ensures P Q m → Ensures P R m
  Ensures-weaken m w h = record { holds = λ s p. go (m s) (h.holds s p) }
    where
      go : (r : Result E A × S) → Returns Q r → Returns R r
      go (ok a, s) q = w a s q
      go (err e, s) q = tt

module _ {S E B : Type 0} {P : S → Type 0} {R : B → S → Type 0} where
  -- What follows a test may count on it.
  pub Ensures-past :
      (o : Option E) (f : Unit {0} → Action S E B)
      → (o ≡ none → Ensures P R (f tt))
      → Ensures P R (guard o >>= f)
  unfolding ◌>>=◌
  Ensures-past none f h = record { holds = λ s p. (h refl).holds s p }
  Ensures-past (some e) f h = record { holds = λ s p. tt }

module _ {S E A : Type 0} {P : S → Type 0} where
  -- What a method keeps is there when it returns.
  pub Preserves-Ensures : (m : Action S E A) → Preserves P m → Ensures P (λ a s. P s) m
  Preserves-Ensures m h = record { holds = λ s p. go (m s) (h.after s p) }
    where
      go : (r : Result E A × S) → P r.1 → Returns (λ a s. P s) r
      go (ok a, s) p = p
      go (err e, s) p = tt
