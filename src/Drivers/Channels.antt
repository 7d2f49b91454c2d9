-- ===== src/Drivers/Channels.antt =====
-- The loop over configured channels that the drivers' configurations share: no channel stands twice,
-- and each passes a test before that check and one behind it.
use linbuskit.Base.{
  ℕ, ◌≡◌, refl, arith, List, [], ◌∷◌, Option, none, some, Bool, true, false, ◌==◌, if◌then◌else◌,
  All, ==_refl, ==→eq, Bool-cases, Option-cases, inl, inr,
}

abbrev pub occurs : ℕ → List ℕ → Bool
occurs c [] = false
occurs c (d ∷ rest) = if d == c then true else occurs c rest

abbrev pub is_empty : List ℕ → Bool
is_empty [] = true
is_empty (c ∷ cs) = false

-- No channel stands twice.
abbrev pub Distinct : List ℕ → Type 0
Distinct [] = Unit
Distinct (c ∷ rest) = (occurs c rest ≡ false) × Distinct rest

abbrev pub or_else : {E : Type 0} → Option E → Option E → Option E
or_else none later = later
or_else (some e) later = some e

occurs-tail :
    (x c : ℕ) (seen rest : List ℕ)
    → occurs c rest ≡ false
    → (occurs x seen ≡ true → occurs x (c ∷ rest) ≡ false)
    → occurs x (c ∷ seen) ≡ true
    → occurs x rest ≡ false
occurs-tail x c seen rest d f s = elim (Bool-cases (c == x)) [
  | inl same ↦ rw⁻¹ (==→eq c x same) d
  | inr other ↦
      let earlier : occurs x seen ≡ true = ground arith in let missed = f earlier in ground arith
]

occurs-fresh :
    (c : ℕ) (seen rest : List ℕ)
    → (occurs c seen ≡ true → occurs c (c ∷ rest) ≡ false)
    → occurs c seen ≡ false
occurs-fresh c seen rest f = elim (Bool-cases (occurs c seen)) [
  | inl there ↦ let missed = f there in ground arith
  | inr fresh ↦ fresh
]

module _ {E : Type 0} (before : ℕ → Option E) (duplicate : ℕ → E) (after : ℕ → Option E) where
  -- `seen` are the channels before.
  unfoldable pub check_each : List ℕ → List ℕ → Option E
  check_each seen [] = none
  check_each seen (c ∷ rest) =
      or_else (before c) (
        if occurs c seen
        then some (duplicate c)
        else or_else (after c) (check_each (c ∷ seen) rest))

  -- A channel that passes both tests.
  abbrev pub Passes : ℕ → Type 0
  Passes c = (before c ≡ none) × (after c ≡ none)

  step :
      (seen : List ℕ) (c : ℕ) (rest : List ℕ)
      → check_each seen (c ∷ rest) ≡ none
      → Passes c × (occurs c seen ≡ false) × (check_each (c ∷ seen) rest ≡ none)
  unfolding check_each
  step seen c rest h = elim (Option-cases (before c)) [
    | inl b ↦ elim (Option-cases (after c)) [ inl a ↦ ground arith | inr (e, a) ↦ ground arith ]
    | inr (e, b) ↦ ground arith
  ]

  check_each-disjoint :
      (x : ℕ) (seen cs : List ℕ)
      → check_each seen cs ≡ none
      → occurs x seen ≡ true
      → occurs x cs ≡ false
  check_each-disjoint x seen [] h s = refl
  check_each-disjoint x seen (c ∷ rest) h s =
      let (p, fresh, later) = step seen c rest h in
      ground (arith, check_each-disjoint x (c ∷ seen) rest later)

  pub check_each-Distinct : (seen cs : List ℕ) → check_each seen cs ≡ none → Distinct cs
  check_each-Distinct seen [] h = tt
  check_each-Distinct seen (c ∷ rest) h =
      let (p, fresh, later) = step seen c rest h in
      (
        check_each-disjoint c (c ∷ seen) rest later (rw (==_refl c)),
        check_each-Distinct (c ∷ seen) rest later,
      )

  pub check_each-Passes : (seen cs : List ℕ) → check_each seen cs ≡ none → All Passes cs
  check_each-Passes seen [] h = tt
  check_each-Passes seen (c ∷ rest) h =
      let (p, fresh, later) = step seen c rest h in (p, check_each-Passes (c ∷ seen) rest later)

  pub check_each_complete :
      (seen cs : List ℕ)
      → All Passes cs
      → Distinct cs
      → ((x : ℕ) → occurs x seen ≡ true → occurs x cs ≡ false)
      → check_each seen cs ≡ none
  unfolding check_each
  check_each_complete seen [] r d f = refl
  check_each_complete seen (c ∷ rest) (p, r) d f =
      let fresh = occurs-fresh c seen rest (f c) in
      let later =
        check_each_complete (c ∷ seen) rest r d.1 (λ x s. occurs-tail x c seen rest d.0 (f x) s) in
      rw (p.0, fresh, p.1) later
