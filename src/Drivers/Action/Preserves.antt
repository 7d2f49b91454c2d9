-- ===== src/Drivers/Action/Preserves.antt =====
-- Invariants of methods: a rule for each way to build one.
use linbuskit.Base.{Option, none, some, Bool, true, false, if◌then◌else◌, Result, ok, err}
use linbuskit.Drivers.Action.{Action, pure, raise, lift, gets, or_raise, guard, continue, ◌>>=◌}

-- The method keeps `P`, whether it returns or fails.
pub record Preserves {S E A : Type 0} (P : S → Type 0) (m : Action S E A) : Type 0 where
  pub after : (s : S) → P s → P (m s).1

module _ {S E A : Type 0} {P : S → Type 0} where
  pub Preserves-pure : (a : A) → Preserves P (pure {E = E} a)
  Preserves-pure a = record { after = λ s h. h }

  pub Preserves-raise : (e : E) → Preserves P (raise {A = A} e)
  Preserves-raise e = record { after = λ s h. h }

  pub Preserves-lift : (r : Result E A) → Preserves P (lift r)
  Preserves-lift r = record { after = λ s h. h }

  pub Preserves-gets : (f : S → A) → Preserves P (gets {E = E} f)
  Preserves-gets f = record { after = λ s h. h }

  pub Preserves-or_raise : (o : Option A) (e : E) → Preserves P (or_raise o e)
  Preserves-or_raise none e = record { after = λ s h. h }
  Preserves-or_raise (some a) e = record { after = λ s h. h }

  pub Preserves-if :
      (b : Bool) (m n : Action S E A)
      → Preserves P m
      → Preserves P n
      → Preserves P (if b then m else n)
  Preserves-if true m n hm hn = hm
  Preserves-if false m n hm hn = hn

module _ {S E : Type 0} {P : S → Type 0} where
  pub Preserves-guard : (o : Option E) → Preserves P (guard o)
  Preserves-guard none = record { after = λ s h. h }
  Preserves-guard (some e) = record { after = λ s h. h }

module _ {S E A B : Type 0} {P : S → Type 0} where
  Preserves-continue :
      (r : Result E A) (f : A → Action S E B)
      → ((a : A) → Preserves P (f a))
      → Preserves P (continue r f)
  Preserves-continue (ok a) f hf = hf a
  Preserves-continue (err e) f hf = record { after = λ s h. h }

  pub Preserves-bind :
      (m : Action S E A) (f : A → Action S E B)
      → Preserves P m
      → ((a : A) → Preserves P (f a))
      → Preserves P (m >>= f)
  unfolding ◌>>=◌
  Preserves-bind m f hm hf = record {
    after = λ s h. let (r, s') = m s in (Preserves-continue r f hf).after s' (hm.after s h);
  }

pub ruleset preserves_rules = (
  Preserves-pure, Preserves-raise, Preserves-lift, Preserves-gets, Preserves-or_raise, Preserves-if,
  Preserves-guard, Preserves-bind,
)
