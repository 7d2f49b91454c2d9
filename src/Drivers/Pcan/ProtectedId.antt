-- ===== src/Drivers/Pcan/ProtectedId.antt =====
-- The protected identifier of a LIN header: the six bits of the frame ID and two parity bits.
use linbuskit.Base.{
  ℕ, zero, suc, ◌+◌, ◌-◌, ◌*◌, ◌/◌, ◌%◌, ◌^◌, ◌<◌, ◌≡◌, refl, arith, Bool, true, false, not, ◌&&◌,
  ◌==◌, ltb, if◌then◌else◌,
}
use linbuskit.Drivers.Pcan.{protected_lin_id, bit}

-- A test that holds of every number below a bound, by evaluation.
all_below : (ℕ → Bool) → ℕ → Bool
all_below test zero = true
all_below test (suc n) = if test n then all_below test n else false

all_below→true :
    (test : ℕ → Bool) (n : ℕ) → all_below test n ≡ true → (i : ℕ) → i < n → test i ≡ true
unfolding all_below
all_below→true test zero e i h = absurd (omega arith)
all_below→true test (suc n) e i h = ground (arith, all_below→true test n (ground arith) i)

-- A byte with one bit turned over, as a disturbed bus shows it.
abbrev pub flip : ℕ → ℕ → ℕ
flip k byte = if bit k byte == 0 then byte + 2 ^ k else byte - 2 ^ k

-- What a receiver checks, by LIN 2.1: an even number of ones among the bits 0, 1, 2, 4 and 6, and an
-- odd number among the bits 1, 3, 4, 5 and 7.
abbrev pub is_protected : ℕ → Bool
is_protected byte =
    (bit 0 byte + bit 1 byte + bit 2 byte + bit 4 byte + bit 6 byte) % 2 == 0
    && (bit 1 byte + bit 3 byte + bit 4 byte + bit 5 byte + bit 7 byte) % 2 == 1

-- The parity bits of a frame ID are right, and turning over any one bit is seen.
unfoldable keeps : ℕ → Bool
unfolding protected_lin_id
keeps id = let p = protected_lin_id id in p % 64 == id && (ltb p 256 && is_protected p)

unfoldable detects : ℕ → ℕ → Bool
unfolding protected_lin_id
detects k id = not (is_protected (flip k (protected_lin_id id)))

all_keep : (id : ℕ) → id < 64 → keeps id ≡ true
unfolding all_below keeps
all_keep = all_below→true keeps 64 refl

all_detect : (n : ℕ) → n < 512 → detects (n % 8) (n / 8) ≡ true
unfolding all_below detects
all_detect = all_below→true (λ n. detects (n % 8) (n / 8)) 512 refl

detect : (id k : ℕ) → id < 64 → k < 8 → detects k id ≡ true
detect id k hi hk =
    let seen = all_detect (id * 8 + k) (omega arith) in
    let place : (id * 8 + k) / 8 ≡ id = omega arith in
    let turned : (id * 8 + k) % 8 ≡ k = omega arith in cc

not-true : (b : Bool) → not b ≡ true → b ≡ false
not-true true h = cc
not-true false h = refl

-- Of every frame ID the protected identifier is a byte with that ID in its low six bits; it passes
-- the parity check of LIN, even over the bits 0, 1, 2, 4 and 6 and odd over the bits 1, 3, 4, 5 and 7,
-- and with any one of its eight bits turned over it does not.
pub protected_lin_id_detects :
    (id k : ℕ)
    → id < 64
    → k < 8
    → (protected_lin_id id % 64 ≡ id)
      × (protected_lin_id id < 256)
      × (is_protected (protected_lin_id id) ≡ true)
      × (is_protected (flip k (protected_lin_id id)) ≡ false)
unfolding keeps detects
protected_lin_id_detects id k hi hk =
    let kept = all_keep id hi in
    (ground arith, ground arith, ground arith, not-true _ (detect id k hi hk))
