-- ===== src/Drivers/Elins/Accepted.antt =====
-- Which ELINS configurations are accepted.
use linbuskit.Base.{
  ℕ, ◌≤◌, ◌≡◌, refl, arith, List, [], ◌∷◌, none, some, false, ok, err, Option-cases, inl, inr, All,
  ◌↔◌, ap, ◌∙◌, le→ltb,
}
use linbuskit.Drivers.Channels.{
  check_each, Distinct, Passes, is_empty, check_each-Distinct, check_each-Passes,
  check_each_complete,
}
use linbuskit.Drivers.Elins.{
  range_error, duplicate_channel, ElinsConfig, ElinsError, ch4, check_channels, check_elins_config,
  with_timeout, normalize_elins_config,
}

-- A configuration that the device can be given.
pub record IsUsable (c : ElinsConfig) : Type 0 where
  pub has_channels : is_empty c.channels ≡ false
  pub baudrate_above : 2000 ≤ c.baudrate
  pub baudrate_below : c.baudrate ≤ 5000000
  pub res_enable : c.res_enable ≤ 1
  pub version : c.version ≤ 2
  pub in_range : All (λ (x : ℕ). x ≤ ch4) c.channels
  pub no_duplicates : Distinct c.channels

range_error-le : (c : ℕ) → range_error c ≡ none → c ≤ ch4
range_error-le c h = ground arith

All-range :
    (cs : List ℕ)
    → All (Passes range_error duplicate_channel (λ c. none)) cs
    → All (λ (x : ℕ). x ≤ ch4) cs
All-range [] h = tt
All-range (c ∷ cs) h = (range_error-le c h.0.0, All-range cs h.1)

range-All :
    (cs : List ℕ)
    → All (λ (x : ℕ). x ≤ ch4) cs
    → All (Passes range_error duplicate_channel (λ c. none)) cs
range-All [] h = tt
range-All (c ∷ cs) (low, h) = ((rw (le→ltb ch4 c low), refl), range-All cs h)

-- The tests accept exactly the usable configurations.
check_elins_config-IsUsable : (c : ElinsConfig) → check_elins_config c ≡ none → IsUsable c
unfolding check_elins_config
check_elins_config-IsUsable c h =
    let checked : check_channels c.channels ≡ none = ground arith in
    let listed : check_each range_error duplicate_channel (λ c. none) [] c.channels ≡ none =
      unfold check_channels in checked in
    record {
      has_channels = ground arith;
      baudrate_above = ground arith;
      baudrate_below = ground arith;
      res_enable = ground arith;
      version = ground arith;
      in_range =
          All-range c.channels
            (check_each-Passes range_error duplicate_channel (λ x. none) [] c.channels listed);
      no_duplicates =
          check_each-Distinct range_error duplicate_channel (λ x. none) [] c.channels listed;
    }

IsUsable-check_elins_config : (c : ElinsConfig) → IsUsable c → check_elins_config c ≡ none
unfolding check_elins_config
IsUsable-check_elins_config c u =
    let checked =
      check_each_complete range_error duplicate_channel (λ c. none) [] c.channels
        (range-All c.channels u.in_range) u.no_duplicates (λ x s. cc) in
    rw
      (
        u.has_channels,
        le→ltb c.baudrate 2000 u.baudrate_above,
        le→ltb 5000000 c.baudrate u.baudrate_below,
        le→ltb 1 c.res_enable u.res_enable,
        le→ltb 2 c.version u.version,
        check_elins_config,
      )
      checked

pub normalize-none :
    (c : ElinsConfig) → check_elins_config c ≡ none → normalize_elins_config c ≡ ok (with_timeout c)
unfolding normalize_elins_config
normalize-none c h = rw (h, normalize_elins_config)

pub normalize-some :
    (c : ElinsConfig) (e : ElinsError)
    → check_elins_config c ≡ some e
    → normalize_elins_config c ≡ err e
unfolding normalize_elins_config
normalize-some c e h = rw (h, normalize_elins_config)

-- A configuration is accepted exactly if it has channels, all from 0 to 3 and none twice, and its
-- baudrate, its resistor switch and its version are in their ranges; the result is the same
-- configuration, with the default for a timeout of zero.
pub normalize_elins_config-IsUsable :
    (c c' : ElinsConfig) → (normalize_elins_config c ≡ ok c') ↔ (IsUsable c × (with_timeout c ≡ c'))
normalize_elins_config-IsUsable c c' = (to, from)
  where
    to : normalize_elins_config c ≡ ok c' → IsUsable c × (with_timeout c ≡ c')
    to h = elim (Option-cases (check_elins_config c)) [
      | inl passed ↦
          let same = normalize-none c passed in (check_elins_config-IsUsable c passed, cc)
      | inr (e, refused) ↦ let failed = normalize-some c e refused in cc
    ]

    from : IsUsable c × (with_timeout c ≡ c') → normalize_elins_config c ≡ ok c'
    from (u, same) = normalize-none c (IsUsable-check_elins_config c u) ∙ ap (λ x. ok x) same
