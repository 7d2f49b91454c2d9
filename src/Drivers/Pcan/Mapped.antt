-- ===== src/Drivers/Pcan/Mapped.antt =====
-- mapHardware of driver/pcan.go gives each channel a device of its own, which is available.
use linbuskit.Base.{
  ℕ, ◌-◌, ◌≡◌, refl, ap, subst, arith, List, [], ◌∷◌, Option, none, some, true, ◌==◌, if◌then◌else◌,
  Bool-cases, Option-cases, All, inl, inr, Result, ok, err, ==_refl, length,
}
use linbuskit.Drivers.Channels.{occurs, Distinct}
use linbuskit.Drivers.Pcan.Device.{PcanError, no_such_index, handle_unavailable, Table, find}
use linbuskit.Drivers.Pcan.Opening.{
  Mapping, some_or, item, choose_handle, use_handle, chosen, map_further, map_channels,
}

-- The two maps are inverse to each other.
pub record IsInverse (by_channel by_hardware : Table) : Type 0 where
  pub there : (c h : ℕ) → find c by_channel ≡ some h → find h by_hardware ≡ some c
  pub back : (c h : ℕ) → find h by_hardware ≡ some c → find c by_channel ≡ some h

find-cons : (k j v : ℕ) (t : Table) → find k ((j, v) ∷ t) ≡ (if j == k then some v else find k t)
unfolding find
find-cons k j v t = refl

IsInverse-cons :
    (c h : ℕ) (by_channel by_hardware : Table)
    → find c by_channel ≡ none
    → find h by_hardware ≡ none
    → IsInverse by_channel by_hardware
    → IsInverse ((c, h) ∷ by_channel) ((h, c) ∷ by_hardware)
IsInverse-cons c h by_channel by_hardware nc nh i = record {
  there = λ x y e. ground (
    arith,
    find-cons x c h by_channel,
    find-cons y h c by_hardware,
    i.there x y,
    i.there c y,
    i.back x h,
  );
  back = λ x y e. ground (
    arith,
    find-cons x c h by_channel,
    find-cons y h c by_hardware,
    i.back x y,
    i.there c y,
    i.back x h,
  );
}

-- The maps after some channels: inverse, with the handles in use, each of an available device.
pub record IsMapping (available : List ℕ) (m : Mapping) : Type 0 where
  pub inverse : IsInverse m.hardware_by_channel m.channel_by_hardware
  pub used_handles : m.used ≡ m.channel_by_hardware
  pub from_available : (c h : ℕ) → find c m.hardware_by_channel ≡ some h → occurs h available ≡ true

abbrev pub IsMapped : Table → ℕ → Type 0
IsMapped t c = (h : ℕ) × (find c t ≡ some h)

-- What one channel does to the maps.
abbrev Next : List ℕ → ℕ → Mapping → Result PcanError Mapping → Type 0
Next available c m (err e) = Unit {0}
Next available c m (ok m') =
    IsMapping available m'
    × IsMapped m'.hardware_by_channel c
    × ((x : ℕ)
        → find x m'.hardware_by_channel
          ≡ (if c == x then find c m'.hardware_by_channel else find x m.hardware_by_channel))

abbrev IsAvailable : List ℕ → Result PcanError ℕ → Type 0
IsAvailable available (err e) = Unit {0}
IsAvailable available (ok h) = occurs h available ≡ true

IsAvailable-cons :
    (x : ℕ) (xs : List ℕ) (r : Result PcanError ℕ) → IsAvailable xs r → IsAvailable (x ∷ xs) r
IsAvailable-cons x xs (err e) h = tt
IsAvailable-cons x xs (ok y) h = ground arith

item-occurs : (i : ℕ) (xs : List ℕ) (e : PcanError) → IsAvailable xs (some_or (item i xs) e)
item-occurs i [] e = tt
item-occurs i (x ∷ xs) e = elim (Bool-cases (i == 0)) [
  | inl here ↦ rw (here, item) (rw ==_refl)
  | inr further ↦
      rw (further, item)
        (IsAvailable-cons x xs (some_or (item (i - 1) xs) e) (item-occurs (i - 1) xs e))
]

choose_handle-IsAvailable :
    (handles : Table) (available : List ℕ) (c : ℕ)
    → IsAvailable available (choose_handle handles available c)
unfolding choose_handle
choose_handle-IsAvailable handles available c = go (find c handles)
  where
    go :
        (o : Option ℕ)
        → IsAvailable available (elim o [
          | none ↦ some_or (item c available) (no_such_index c c (length available))
          | some handle ↦
              if occurs handle available then ok handle else err (handle_unavailable handle c)
        ])
    go none = item-occurs c available (no_such_index c c (length available))
    go (some h) = elim (Bool-cases (occurs h available)) [
      | inl there ↦ rw there (there)
      | inr missing ↦ rw missing tt
    ]

use_handle-Next :
    (available : List ℕ) (c h : ℕ) (m : Mapping)
    → occurs h available ≡ true
    → find c m.hardware_by_channel ≡ none
    → IsMapping available m
    → Next available c m (use_handle c m h)
unfolding find
use_handle-Next available c h m o nc i = elim (Option-cases (find h m.used)) [
  | inr (previous, there) ↦ rw (there, use_handle) tt
  | inl free ↦
      let nh : find h m.channel_by_hardware ≡ none =
        subst (λ t. find h t ≡ none) i.used_handles free in
      rw (free, use_handle)
        (
          record {
            inverse =
                IsInverse-cons c h m.hardware_by_channel m.channel_by_hardware nc nh i.inverse;
            used_handles = ap (λ t. (h, c) ∷ t) i.used_handles;
            from_available = λ x y e.
                ground (arith, find-cons x c h m.hardware_by_channel, i.from_available x y);
          },
          (h, rw ==_refl),
          λ x. ground arith,
        )
]

-- What the loop leaves: maps as before with what was in them, and all channels in them if it succeeds.
abbrev pub Finished : List ℕ → Mapping → List ℕ → Option PcanError × Mapping → Type 0
Finished available m channels (failure, m') =
    IsMapping available m'
    × ((x h : ℕ) → find x m.hardware_by_channel ≡ some h → find x m'.hardware_by_channel ≡ some h)
    × (failure ≡ none → All (IsMapped m'.hardware_by_channel) channels)

pub map_channels-Finished :
    (handles : Table) (available channels : List ℕ) (m : Mapping)
    → Distinct channels
    → ((c : ℕ) → occurs c channels ≡ true → find c m.hardware_by_channel ≡ none)
    → IsMapping available m
    → Finished available m channels (map_channels handles available channels m)
unfolding map_channels
map_channels-Finished handles available [] m d f i = (i, λ x h e. e, λ e. tt)
map_channels-Finished handles available (c ∷ rest) m d f i =
    go (chosen c m (choose_handle handles available c))
      (chosen-Next (choose_handle handles available c)
        (choose_handle-IsAvailable handles available c))
      (λ m' f' i'. map_channels-Finished handles available rest m' d.1 f' i')
  where
    chosen-Next :
        (r : Result PcanError ℕ) → IsAvailable available r → Next available c m (chosen c m r)
    chosen-Next (err e) a = tt
    chosen-Next (ok h) a = use_handle-Next available c h m a (f c (rw ==_refl)) i

    go :
        (r : Result PcanError Mapping)
        → Next available c m r
        → ((m' : Mapping)
            → ((x : ℕ) → occurs x rest ≡ true → find x m'.hardware_by_channel ≡ none)
            → IsMapping available m'
            → Finished available m' rest (map_channels handles available rest m'))
        → Finished available m (c ∷ rest) (map_further m (map_channels handles available rest) r)
    go (err e) next later = (i, λ x h p. p, λ p. absurd (cc))
    go (ok m') (i', (h, here), others) later =
        let new = f c (rw ==_refl) in
        let (i'', keeps, all) = later m' (λ x o. ground (arith, others x, f x, d.0)) i' in
        (i'', λ x y e. keeps x y (ground (arith, others x)), λ p. ((h, keeps c h here), all p))
