-- ===== src/Base/Bits.antt =====
-- Bitwise "or" of disjoint fields as addition, by tables that are checked by evaluation.
use Prim.Native.Nat.{ℕ, zero, suc, ◌+◌, ◌*◌, ◌/◌, ◌%◌, ◌<◌, bit_or}
use mathlib.Core.Path.{◌≡◌, refl}
use mathlib.Core.Bool.{Bool, true, false}
use mathlib.Core.Logic.{ite}
use native.Mathlib.Decide.{ℕ_discrete}
use native.Mathlib.Omega.{arith}

module _ (f g : ℕ → ℕ) where
  agree_below : ℕ → Bool
  unfolding ℕ_discrete
  agree_below zero = true
  agree_below (suc n) = ite (ℕ_discrete (f n) (g n)) (agree_below n) false

  agree_below→eq : (n : ℕ) → agree_below n ≡ true → (i : ℕ) → i < n → f i ≡ g i
  unfolding agree_below
  agree_below→eq zero e i h = absurd (omega arith)
  agree_below→eq (suc n) e i h = ground (arith, agree_below→eq n (ground arith) i)

-- A PCI type in the high nibble, joined with a low nibble.
pub sf_nibble : (x : ℕ) → x < 16 → bit_or 0 x ≡ x
unfolding agree_below
sf_nibble = agree_below→eq _ _ 16 refl

pub ff_nibble : (x : ℕ) → x < 16 → bit_or 16 x ≡ 16 + x
unfolding agree_below
ff_nibble = agree_below→eq _ _ 16 refl

pub cf_nibble : (x : ℕ) → x < 16 → bit_or 32 x ≡ 32 + x
unfolding agree_below
cf_nibble = agree_below→eq _ _ 16 refl

-- A 12-bit number is put together again from its high nibble and its low byte.
pub join_length : (n : ℕ) → n < 4096 → bit_or (n / 256 * 256) (n % 256) ≡ n
unfolding agree_below
join_length = agree_below→eq (λ n. bit_or (n / 256 * 256) (n % 256)) (λ n. n) 4096 refl
