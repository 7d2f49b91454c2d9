-- ===== src/Drivers/Vector/Resolved.antt =====
-- What resolveChannels of driver/vector.go leaves: each channel has an index of its own.
use linbuskit.Base.{
  ℕ, ◌%◌, ◌^◌, ◌≤◌, ◌≡◌, refl, sym, ap, subst, arith, List, [], ◌∷◌, none, some, Bool, true, false,
  ◌||◌, ◌==◌, if◌then◌else◌, Bool-cases, Option-cases, inl, inr, ==_refl, ℤ, bit_or, ◌∙◌, digit,
  digit-or_left, digit-or_right, digit-power,
}
use linbuskit.Lin.{ChecksumType}
use linbuskit.Drivers.Channels.{occurs}
use linbuskit.Drivers.Action.{◌>>=◌}
use linbuskit.Drivers.Action.Preserves.{Preserves, Preserves-gets, preserves_rules}
use linbuskit.Drivers.Action.Ensures.{
  Ensures, Ensures-bind, Ensures-past, Ensures-modify, Ensures-weaken, Preserves-Ensures,
}
use linbuskit.Drivers.Pcan.Device.{Table, find}
use linbuskit.Drivers.Vector.Device.{Vector, VectorApi, VectorConfig, VectorChannel, lookup}
use linbuskit.Drivers.Vector.Opening.{
  mapping_error, resolved, hardware_by_app, channel_index, channel_mask, resolve_channel,
  resolve_all, resolve_channels, app_config,
}

-- A channel's index leads back to it, its mask is that of the index, and the mask of all channels
-- has that bit.
pub record IsResolved (infos : List (ℕ × VectorChannel)) (logicals : Table) (access : ℕ)
    : Type 0 where
  pub known :
      (c : ℕ) (info : VectorChannel)
      → lookup c infos ≡ some info
      → (find info.index logicals ≡ some c)
        × (info.mask ≡ 2 ^ info.index)
        × (info.index ≤ 63)
        × (digit info.index access ≡ 1)

abbrev pub IsKnown : List (ℕ × VectorChannel) → ℕ → Type 0
IsKnown infos c = (info : VectorChannel) × (lookup c infos ≡ some info)

pub lookup-cons :
    {A : Type 0} (k j : ℕ) (a : A) (rest : List (ℕ × A))
    → lookup k ((j, a) ∷ rest) ≡ (if j == k then some a else lookup k rest)
unfolding lookup
lookup-cons k j a rest = refl

find-cons : (k j v : ℕ) (t : Table) → find k ((j, v) ∷ t) ≡ (if j == k then some v else find k t)
unfolding find
find-cons k j v t = refl

-- An entry that is found is the new one, or an older one of another index.
IsResolved-cons :
    (c index mask : ℕ) (infos : List (ℕ × VectorChannel)) (logicals : Table) (access : ℕ)
    → index ≤ 63
    → mask ≡ 2 ^ index
    → find index logicals ≡ none
    → IsResolved infos logicals access
    → IsResolved
        ((c, record { index = index; mask = mask }) ∷ infos)
        ((index, c) ∷ logicals)
        (bit_or access mask)
IsResolved-cons c index mask infos logicals access small power free r = record {
  known = λ x info e.
      let fresh : VectorChannel = record { index = index; mask = mask } in
      elim (Bool-cases (c == x)) [
        | inl same ↦
            let is : fresh ≡ info = ground (arith, lookup-cons x c fresh infos) in
            let here : find index ((index, c) ∷ logicals) ≡ some x =
              ground (arith, find-cons index index c logicals, ==_refl index) in
            subst
              (λ (i : VectorChannel).
                (find i.index ((index, c) ∷ logicals) ≡ some x)
                × (i.mask ≡ 2 ^ i.index)
                × (i.index ≤ 63)
                × (digit i.index (bit_or access mask) ≡ 1))
              is
              (
                here,
                power,
                small,
                digit-or_right index access mask (ap (digit index) power ∙ digit-power index),
              )
        | inr other ↦
            let older : lookup x infos ≡ some info = ground (arith, lookup-cons x c fresh infos) in
            let k = r.known x info older in
            (
              ground (arith, find-cons info.index index c logicals, k.0, free),
              k.1,
              k.2,
              digit-or_left info.index access mask k.3,
            )
      ];
}

mapping_error-none :
    (used : Table) (logical index mask : ℕ)
    → mapping_error used logical index mask ≡ none
    → (mask ≡ 2 ^ index) × (find index used ≡ none)
mapping_error-none used logical index mask e = elim (Option-cases (find index used)) [
  | inl free ↦ (ground arith, free)
  | inr (previous, there) ↦ absurd (ground arith)
]

module _ {S : Type 0} (api : VectorApi S) (config : VectorConfig) (dlc : ℕ → ℕ)
    (kinds : ℕ → ChecksumType) where
  -- Not closed, with the library, the configuration and the tables that it was made with, and with
  -- empty queues.
  abbrev pub IsFresh : Vector S → Type 0
  IsFresh v =
      (v.is_closed ≡ false)
      × (v.has_api ≡ true)
      × (v.config ≡ config)
      × (v.dlc_table ≡ dlc)
      × (v.checksum_table ≡ kinds)
      × (v.event_chans ≡ [])

  -- Between the turns: the channels `done` are known.
  abbrev Resolving : Table → (ℕ → Bool) → Vector S → Type 0
  Resolving used done v =
      IsFresh v
      × (used ≡ v.logical_by_index)
      × IsResolved v.channel_info v.logical_by_index v.access_mask
      × ((c : ℕ) → done c ≡ true → IsKnown v.channel_info c)

  module _ (used : Table) (done : ℕ → Bool) where
    app_config-Resolving :
        (app_channel : ℕ) → Preserves (Resolving used done) (app_config api app_channel)
    app_config-Resolving app_channel = record { after = λ v h. h }

    hardware-Resolving :
        (b : Bool) (logical : ℕ) → Preserves (Resolving used done) (hardware_by_app api b logical)
    hardware-Resolving false logical = record { after = λ v h. h }
    hardware-Resolving true logical = search (preserves_rules, app_config-Resolving) depth 14

    index-Resolving : (hw : ℤ × ℤ × ℤ) → Preserves (Resolving used done) (channel_index api hw)
    index-Resolving hw = record { after = λ v h. h }

    mask-Resolving : (hw : ℤ × ℤ × ℤ) → Preserves (Resolving used done) (channel_mask api hw)
    mask-Resolving hw = record { after = λ v h. h }

    resolved-Resolving :
        (logical index mask : ℕ)
        → index ≤ 63
        → mask ≡ 2 ^ index
        → find index used ≡ none
        → (v : Vector S) → Resolving used done v
        → Resolving
            ((index, logical) ∷ used)
            (λ c. c == logical || done c)
            (resolved logical index mask v)
    resolved-Resolving logical index mask small power free v (fresh, same, r, all) =
        let byte : index % 256 ≡ index = omega arith in
        let unused : find index v.logical_by_index ≡ none =
          subst (λ t. find index t ≡ none) same free in
        let info : VectorChannel = record { index = index; mask = mask } in
        rw byte (
          fresh,
          ap (λ t. (index, logical) ∷ t) same,
          IsResolved-cons logical index mask v.channel_info v.logical_by_index v.access_mask small
              power unused r,
          λ c h. elim (Bool-cases (logical == c)) [
            | inl is ↦ (info, ground (arith, lookup-cons c logical info v.channel_info))
            | inr other ↦
                let old = all c (ground arith) in
                (old.0, ground (arith, lookup-cons c logical info v.channel_info, old.1))
          ],
        )

    resolve_channel-Ensures :
        (logical : ℕ)
        → Ensures
            (Resolving used done)
            (λ used' v. Resolving used' (λ c. c == logical || done c) v)
            (resolve_channel api logical used)
    unfolding resolve_channel
    resolve_channel-Ensures logical =
        Ensures-bind _ _ (Preserves-Ensures _ (Preserves-gets _)) λ use_app.
          Ensures-bind _ _ (Preserves-Ensures _ (hardware-Resolving use_app logical)) λ hw.
            Ensures-bind _ _ (Preserves-Ensures _ (index-Resolving hw)) λ index.
              Ensures-past _ _ λ small.
                Ensures-bind _ _ (Preserves-Ensures _ (mask-Resolving hw)) λ mask.
                  Ensures-past _ _ λ fits.
                    let m = mapping_error-none used logical index mask fits in
                    Ensures-bind _ _
                      (Ensures-modify _
                        (resolved-Resolving logical index mask (ground arith) m.0 m.1))
                      λ a. record { holds = λ v h. h }

  resolve_all-Ensures :
      (channels : List ℕ) (used : Table) (done : ℕ → Bool)
      → Ensures
          (Resolving used done)
          (λ a v.
            IsFresh v
            × IsResolved v.channel_info v.logical_by_index v.access_mask
            × ((c : ℕ) → (done c || occurs c channels) ≡ true → IsKnown v.channel_info c))
          (resolve_all api channels used)
  unfolding resolve_all
  resolve_all-Ensures [] used done = record {
    holds = λ v h. (h.0, h.2, λ c there. h.3 c (ground arith));
  }
  resolve_all-Ensures (x ∷ rest) used done =
      Ensures-bind _ _ (resolve_channel-Ensures used done x) λ used'.
        Ensures-weaken _ (λ a v h. (h.0, h.1, λ c there. h.2 c (ground arith)))
          (resolve_all-Ensures rest used' (λ c. c == x || done c))

  -- Before the channels are resolved.
  abbrev pub IsUnresolved : Vector S → Type 0
  IsUnresolved v = IsFresh v × (v.channel_info ≡ []) × (v.logical_by_index ≡ [])

  -- Every channel of the configuration is known, by an index of its own.
  abbrev pub IsConnected : Vector S → Type 0
  IsConnected v =
      IsFresh v
      × IsResolved v.channel_info v.logical_by_index v.access_mask
      × ((c : ℕ) → occurs c config.channels ≡ true → IsKnown v.channel_info c)

  IsResolved-nil : (access : ℕ) → IsResolved [] [] access
  unfolding lookup
  IsResolved-nil access = record { known = λ c info e. absurd (ground arith) }

  pub resolve_channels-Ensures : Ensures IsUnresolved (λ a v. IsConnected v) (resolve_channels api)
  unfolding resolve_channels ◌>>=◌
  resolve_channels-Ensures = record {
    holds = λ v h. simp h.0.2 (
        (resolve_all-Ensures config.channels [] (λ c. false)).holds v (
          h.0,
          sym h.2,
          rw (h.1, h.2) (IsResolved-nil v.access_mask),
          λ c no. absurd (ground arith),
        ));
  }
