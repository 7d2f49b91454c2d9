-- ===== src/Base/Digits.antt =====
-- The binary digits of a number, and of the bitwise or and and of two.
use Prim.Native.Nat.{
  ℕ, zero, suc, ◌+◌, ◌*◌, ◌/◌, ◌%◌, ◌^◌, ◌≤◌, ◌<◌, min, max, bit_and, bit_or, digits,
  bit_and-bitwise, bit_or-bitwise,
}
use mathlib.Core.Path.{◌≡◌, refl, sym, ◌∙◌, ap}
use native.Mathlib.Omega.{arith}

abbrev pub digit : ℕ → ℕ → ℕ
digit zero x = x % 2
digit (suc i) x = digit i (x / 2)

digit-zero : (i : ℕ) → digit i 0 ≡ 0
digit-zero zero = refl
digit-zero (suc i) = digit-zero i

digit-less : (i x : ℕ) → digit i x < 2
digit-less zero x = omega arith
digit-less (suc i) x = digit-less i (x / 2)

digit-join : (i d e : ℕ) → d < 2 → digit (suc i) (e * 2 + d) ≡ digit i e
digit-join i d e h = ap (digit i) (omega arith)

module _ (z : ℕ → ℕ) (f : ℕ → ℕ → ℕ) (rest : (i b : ℕ) → digit i (z b) ≡ f 0 (digit i b))
    (small : (x y : ℕ) → x < 2 → y < 2 → f x y < 2) where
  digit-digits : (i n a b : ℕ) → a ≤ n → digit i (digits z f n a b) ≡ f (digit i a) (digit i b)
  digit-digits i zero zero b h = rw (digit-zero i) (rest i b)
  digit-digits i zero (suc a) b h = absurd (omega arith)
  digit-digits i (suc n) zero b h = rw (digit-zero i) (rest i b)
  digit-digits zero (suc n) (suc a) b h =
      let low = small (suc a % 2) (b % 2) (omega arith) (omega arith) in omega arith
  digit-digits (suc i) (suc n) (suc a) b h =
      let low = small (suc a % 2) (b % 2) (omega arith) (omega arith) in
      digit-join i (f (suc a % 2) (b % 2)) (digits z f n (suc a / 2) (b / 2)) low
      ∙ digit-digits i n (suc a / 2) (b / 2) (omega arith)

pub digit-bit_or : (i a b : ℕ) → digit i (bit_or a b) ≡ max (digit i a) (digit i b)
digit-bit_or i a b =
    ap (digit i) (bit_or-bitwise a b)
    ∙ digit-digits (λ b. b) max (λ i b. omega arith) (λ x y hx hy. omega arith) i a a b
        (omega arith)

pub digit-bit_and : (i a b : ℕ) → digit i (bit_and a b) ≡ min (digit i a) (digit i b)
digit-bit_and i a b =
    ap (digit i) (bit_and-bitwise a b)
    ∙ digit-digits (λ b. zero) min (λ i b. digit-zero i ∙ (omega arith)) (λ x y hx hy. omega arith)
        i a a b (omega arith)

pub digit-power : (i : ℕ) → digit i (2 ^ i) ≡ 1
digit-power zero = refl
digit-power (suc i) = ap (digit i) (omega arith) ∙ digit-power i

-- What is set in one of two numbers is set in their bitwise or.
pub digit-or_left : (i a b : ℕ) → digit i a ≡ 1 → digit i (bit_or a b) ≡ 1
digit-or_left i a b h = omega (arith, digit-bit_or i a b, digit-less i b)

pub digit-or_right : (i a b : ℕ) → digit i b ≡ 1 → digit i (bit_or a b) ≡ 1
digit-or_right i a b h = omega (arith, digit-bit_or i a b, digit-less i a)

-- What is set in a number is set in each that covers it.
pub digit-covered : (i p a : ℕ) → bit_and p a ≡ a → digit i a ≡ 1 → digit i p ≡ 1
digit-covered i p a h set =
    let both : digit i a ≡ min (digit i p) (digit i a) =
      sym (ap (digit i) h) ∙ digit-bit_and i p a in
    omega (arith, digit-less i p)
