-- ===== src/Drivers/Vector/Tables.antt =====
-- The tables that normalizeVectorConfig of driver/vector.go fills.
use linbuskit.Base.{
  ℕ, ◌≤◌, ◌≡◌, refl, subst, ◌∙◌, arith, List, [], ◌∷◌, Option, none, some, true, false, ◌==◌,
  Bool-cases, inl, inr, Result, ok, err, ==→eq,
}
use linbuskit.Lin.{ChecksumType, classic_checksum, enhanced_checksum}
use linbuskit.Drivers.Channels.{occurs, Distinct}
use linbuskit.Drivers.Pcan.{is_diagnostic}
use linbuskit.Drivers.Vector.Device.{VectorConfig, VectorError, lookup}
use linbuskit.Drivers.Vector.Config.{
  Tables, set_at, default_dlc, default_checksum, dlc_error, checksum_kind_error, unless_error,
  fill_table, with_checksums, with_dlc, with_vector_defaults, check_vector_config,
  normalize_vector_config,
}
use linbuskit.Drivers.Vector.Opening.{or_else_value}
use linbuskit.Drivers.Vector.Resolved.{lookup-cons}

abbrev pub keys : {A : Type 0} → List (ℕ × A) → List ℕ
keys [] = []
keys ((k, a) ∷ rest) = k ∷ keys rest

lookup-nil : {A : Type 0} (k : ℕ) → lookup {A = A} k [] ≡ none
unfolding lookup
lookup-nil k = refl

lookup-missing :
    {A : Type 0} (k : ℕ) (es : List (ℕ × A)) → occurs k (keys es) ≡ false → lookup k es ≡ none
unfolding lookup
lookup-missing k [] h = refl
lookup-missing k ((j, a) ∷ rest) h = elim (Bool-cases (j == k)) [
  | inl same ↦ absurd (ground arith)
  | inr other ↦ rw other (lookup-missing k rest (ground arith))
]

unless-ok :
    {B : Type 0} (o : Option VectorError) (r : Result VectorError B) (b : B)
    → unless_error o r ≡ ok b
    → (o ≡ none) × (r ≡ ok b)
unless-ok none r b e = (refl, e)
unless-ok (some x) r b e = absurd (ground arith)

module _ {A : Type 0} (entry_error : ℕ → A → Option VectorError) where
  -- The filled table has the entries, and else what was there; all entries have passed the test.
  pub record IsFilled (es : List (ℕ × A)) (t t' : ℕ → A) : Type 0 where
    pub values : (id : ℕ) → t' id ≡ or_else_value (lookup id es) (t id)
    pub passed : (id : ℕ) (a : A) → lookup id es ≡ some a → entry_error id a ≡ none

  fill_table-IsFilled :
      (es : List (ℕ × A)) (t t' : ℕ → A)
      → Distinct (keys es)
      → fill_table entry_error es t ≡ ok t'
      → IsFilled es t t'
  unfolding fill_table
  fill_table-IsFilled [] t t' d e =
      let same : t ≡ t' = cc in
      record {
        values = λ id. rw (lookup-nil {A = A} id, same) refl;
        passed = λ id a there. absurd (ground (arith, lookup-nil {A = A} id));
      }
  fill_table-IsFilled ((k, a) ∷ rest) t t' d e =
      let both = unless-ok (entry_error k a) (fill_table entry_error rest (set_at t k a)) t' e in
      let f = fill_table-IsFilled rest (set_at t k a) t' d.1 both.1 in
      record {
        values = λ id. elim (Bool-cases (k == id)) [
          | inl same ↦
              let missing : lookup id rest ≡ none =
                rw⁻¹ (==→eq k id same) (lookup-missing k rest d.0) in
              let turned : (id == k) ≡ true = ground arith in
              let here : t' id ≡ a = f.values id ∙ rw (missing, turned) refl in
              rw (lookup-cons id k a rest, same) here
          | inr other ↦
              let turned : (id == k) ≡ false = ground arith in
              let here : t' id ≡ or_else_value (lookup id rest) (t id) =
                f.values id ∙ rw turned refl in
              rw (lookup-cons id k a rest, other) here
        ];
        passed = λ id b there. elim (Bool-cases (k == id)) [
          | inl same ↦
              let v : a ≡ b = ground (arith, lookup-cons id k a rest) in
              rw⁻¹ (v, ==→eq k id same) both.0
          | inr other ↦ f.passed id b (ground (arith, lookup-cons id k a rest))
        ];
      }

-- What the tables say of a frame ID: the configured length and kind of checksum, or the default, within
-- what LIN allows.
pub record IsRow (c : VectorConfig) (dlc : ℕ → ℕ) (kinds : ℕ → ChecksumType) (id : ℕ) : Type 0 where
  pub length : dlc id ≡ or_else_value (lookup id c.dlc) 8
  pub length_fits : dlc id ≤ 8
  pub kind : kinds id ≡ or_else_value (lookup id c.checksum) (default_checksum c.version id)
  pub old_version : c.version ≡ 1 → kinds id ≡ classic_checksum
  pub diagnostic : is_diagnostic id ≡ true → (dlc id ≡ 8) × (kinds id ≡ classic_checksum)

dlc-fits :
    (id : ℕ) (o : Option ℕ)
    → ((n : ℕ) → o ≡ some n → dlc_error id n ≡ none)
    → let n = or_else_value o 8 in (n ≤ 8) × (is_diagnostic id ≡ true → n ≡ 8)
dlc-fits id none h = (omega arith, λ d. refl)
dlc-fits id (some n) h = let passed = h n refl in (ground arith, λ d. ground arith)

kind-fits :
    (version id : ℕ) (o : Option ChecksumType)
    → ((k : ChecksumType) → o ≡ some k → checksum_kind_error version id k ≡ none)
    → let k = or_else_value o (default_checksum version id) in
      (version ≡ 1 → k ≡ classic_checksum) × (is_diagnostic id ≡ true → k ≡ classic_checksum)
kind-fits version id none h = (λ old. ground arith, λ d. ground arith)
kind-fits version id (some classic_checksum) h = (λ old. refl, λ d. refl)
kind-fits version id (some enhanced_checksum) h =
    let passed = h enhanced_checksum refl in
    (λ old. absurd (ground arith), λ d. absurd (ground arith))

with_dlc-ok :
    (c : VectorConfig) (r : Result VectorError (ℕ → ℕ)) (tables : Tables)
    → with_dlc c r ≡ ok tables
    → (dlc : ℕ → ℕ) × (r ≡ ok dlc)
      × (with_checksums c dlc
            (fill_table (checksum_kind_error c.version) c.checksum (default_checksum c.version))
          ≡ ok tables)
with_dlc-ok c (ok dlc) tables e = (dlc, refl, e)
with_dlc-ok c (err x) tables e = absurd (ground arith)

with_checksums-ok :
    (c : VectorConfig) (dlc : ℕ → ℕ) (r : Result VectorError (ℕ → ChecksumType)) (tables : Tables)
    → with_checksums c dlc r ≡ ok tables
    → (kinds : ℕ → ChecksumType) × (r ≡ ok kinds) × ((c, dlc, kinds) ≡ tables)
with_checksums-ok c dlc (ok kinds) tables e = (kinds, refl, cc)
with_checksums-ok c dlc (err x) tables e = absurd (ground arith)

IsRow-filled :
    (c : VectorConfig) (dlc : ℕ → ℕ) (kinds : ℕ → ChecksumType)
    → IsFilled dlc_error c.dlc default_dlc dlc
    → IsFilled (checksum_kind_error c.version) c.checksum (default_checksum c.version) kinds
    → (id : ℕ) → IsRow c dlc kinds id
IsRow-filled c dlc kinds fd fk id =
    let lengths = dlc-fits id (lookup id c.dlc) (fd.passed id) in
    let ks = kind-fits c.version id (lookup id c.checksum) (fk.passed id) in
    record {
      length = fd.values id;
      length_fits = rw (fd.values id) lengths.0;
      kind = fk.values id;
      old_version = λ old. fk.values id ∙ ks.0 old;
      diagnostic = λ d. (fd.values id ∙ lengths.1 d, fk.values id ∙ ks.1 d);
    }

-- In a configuration that normalizeVectorConfig accepts, whose maps have no key twice, every frame ID
-- has the configured length and kind of checksum, or the default; no length is above eight, a
-- diagnostic frame has eight bytes and the classic checksum, and in LIN 1.3 every frame has the latter.
pub normalize_vector_config-IsRow :
    (config : VectorConfig) (tables : Tables)
    → Distinct (keys config.dlc)
    → Distinct (keys config.checksum)
    → normalize_vector_config config ≡ ok tables
    → (tables.0 ≡ with_vector_defaults config) × ((id : ℕ) → IsRow tables.0 tables.1 tables.2 id)
unfolding normalize_vector_config with_vector_defaults
normalize_vector_config-IsRow config tables dd dk e =
    let c = with_vector_defaults config in
    let rest =
      (unless-ok (check_vector_config c) (with_dlc c (fill_table dlc_error c.dlc default_dlc))
        tables e).1 in
    let (dlc, filled, rest') = with_dlc-ok c (fill_table dlc_error c.dlc default_dlc) tables rest in
    let (kinds, filled', same) =
      with_checksums-ok c dlc
        (fill_table (checksum_kind_error c.version) c.checksum (default_checksum c.version)) tables
        rest' in
    subst (λ (t : Tables). (t.0 ≡ with_vector_defaults config) × ((id : ℕ) → IsRow t.0 t.1 t.2 id))
      same
      (
        refl,
        IsRow-filled c dlc kinds (fill_table-IsFilled dlc_error c.dlc default_dlc dlc dd filled) (
            fill_table-IsFilled (checksum_kind_error c.version) c.checksum
              (default_checksum c.version) kinds dk filled'),
      )
