-- ===== src/Drivers/Action/Repeat.antt =====
-- Loops that run until a turn says that they are over.
use linbuskit.Base.{ℕ, zero, suc, ◌<◌, arith, Option, none, some}

pub data Turn (A : Type 0) : Type 0 where
  again : Turn A
  over : A → Turn A

abbrev pub by_turn : {S A : Type 0} → (S → Option (A × S)) → Turn A × S → Option (A × S)
by_turn rest (again, s) = rest s
by_turn rest (over a, s) = some (a, s)

-- `for { ... }`; `none` is a loop that has run out of fuel.
unfoldable pub repeat : {S A : Type 0} → (S → Turn A × S) → ℕ → S → Option (A × S)
repeat turn zero s = none
repeat turn (suc fuel) s = by_turn (repeat turn fuel) (turn s)

-- What is true of the result and the state of a loop that has ended.
abbrev pub Ends : {S A : Type 0} → (A → S → Type 0) → Option (A × S) → Type 0
Ends Q none = ⊥
Ends Q (some (a, s)) = Q a s

-- What a turn must do: keep the invariant and come closer to the end, or end with `Q`.
abbrev pub Progress :
    {S A : Type 0} → (S → Type 0) → (A → S → Type 0) → (S → ℕ) → ℕ → Turn A × S → Type 0
Progress P Q measure before (again, s) = P s × (measure s < before)
Progress P Q measure before (over a, s) = Q a s

module _ {S A : Type 0} (P : S → Type 0) (Q : A → S → Type 0) (measure : S → ℕ)
    (turn : S → Turn A × S) (step : (s : S) → P s → Progress P Q measure (measure s) (turn s)) where
  -- A loop whose turns all make progress ends within the measure, with what its last turn gives.
  pub repeat-Ends : (fuel : ℕ) (s : S) → P s → measure s < fuel → Ends Q (repeat turn fuel s)
  unfolding repeat
  repeat-Ends zero s p less = absurd (omega arith)
  repeat-Ends (suc fuel) s p less =
      go (turn s) (step s p) λ s' p' less'. repeat-Ends fuel s' p' less'
    where
      go :
          (t : Turn A × S)
          → Progress P Q measure (measure s) t
          → ((s' : S) → P s' → measure s' < fuel → Ends Q (repeat turn fuel s'))
          → Ends Q (by_turn (repeat turn fuel) t)
      go (again, s') (p', closer) rest = rest s' p' (omega arith)
      go (over a, s') q rest = q

-- What is true of the state of a loop, if it has ended.
abbrev pub Leaves : {S A : Type 0} → (S → Type 0) → Option (A × S) → Type 0
Leaves P none = Unit {0}
Leaves P (some (a, s)) = P s

module _ {S A : Type 0} (P : S → Type 0) (turn : S → Turn A × S)
    (step : (s : S) → P s → P (turn s).1) where
  -- What every turn keeps is kept.
  pub repeat-Leaves : (fuel : ℕ) (s : S) → P s → Leaves P (repeat turn fuel s)
  unfolding repeat
  repeat-Leaves zero s p = tt
  repeat-Leaves (suc fuel) s p = go (turn s) (step s p) λ s' p'. repeat-Leaves fuel s' p'
    where
      go :
          (t : Turn A × S)
          → P t.1
          → ((s' : S) → P s' → Leaves P (repeat turn fuel s'))
          → Leaves P (by_turn (repeat turn fuel) t)
      go (again, s') p' rest = rest s' p'
      go (over a, s') p' rest = p'
