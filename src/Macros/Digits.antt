-- ===== src/Macros/Digits.antt =====
-- The lowest digit of `bit_and`, `bit_or` and `bit_xor`, and what a mask of low ones does.
use Prim.Native.Nat.{
  min, max, digits, bitwise, differ, bit_and, bit_or, bit_xor, bit_and-bitwise, bit_or-bitwise,
  bit_xor-bitwise,
}
use native.Mathlib.Nat.{pow-suc, one-le-pow}
use eoblock.Prelude.{ℕ, zero, suc, ◌+◌, ◌-◌, ◌*◌, ◌/◌, ◌%◌, ◌^◌, ◌≤◌, ◌<◌, ◌≡◌, refl, ap, arith}

module _ (keep : ℕ → ℕ) (op : ℕ → ℕ → ℕ) where
  -- More fuel than digits changes nothing.
  digits_enough : (n m a b : ℕ) → a ≤ n → a ≤ m → digits keep op n a b ≡ digits keep op m a b
  digits_enough zero zero a b p q = refl
  digits_enough zero (suc m) zero b p q = refl
  digits_enough zero (suc m) (suc a) b p q = absurd (omega arith)
  digits_enough (suc n) zero zero b p q = refl
  digits_enough (suc n) zero (suc a) b p q = absurd (omega arith)
  digits_enough (suc n) (suc m) zero b p q = refl
  digits_enough (suc n) (suc m) (suc a) b p q =
      rw (digits_enough n m (suc a / 2) (b / 2) (omega arith) (omega arith))

  bitwise-halve :
      (a b : ℕ)
      → bitwise keep op (suc a) b ≡ bitwise keep op (suc a / 2) (b / 2) * 2 + op (suc a % 2) (b % 2)
  bitwise-halve a b =
      omega (arith, digits_enough a (suc a / 2) (suc a / 2) (b / 2) (omega arith) (omega arith))

bit_or-halve : (a b : ℕ) → bit_or a b ≡ bit_or (a / 2) (b / 2) * 2 + max (a % 2) (b % 2)
bit_or-halve zero b = simp bit_or-bitwise (omega arith)
bit_or-halve (suc a) b = simp bit_or-bitwise (bitwise-halve (λ y. y) max a b)

pub bit_and-halve : (a b : ℕ) → bit_and a b ≡ bit_and (a / 2) (b / 2) * 2 + min (a % 2) (b % 2)
bit_and-halve zero b = simp bit_and-bitwise (omega arith)
bit_and-halve (suc a) b = simp bit_and-bitwise (bitwise-halve (λ y. 0) min a b)

pub bit_xor-halve : (a b : ℕ) → bit_xor a b ≡ bit_xor (a / 2) (b / 2) * 2 + differ (a % 2) (b % 2)
bit_xor-halve zero b = simp bit_xor-bitwise (omega arith)
bit_xor-halve (suc a) b = simp bit_xor-bitwise (bitwise-halve (λ y. y) differ a b)

-- Induction on a bound on `a`: both operations leave or clear it against 0.
bit_or-zero_below : (n a : ℕ) → a ≤ n → bit_or a 0 ≡ a
bit_or-zero_below n zero h = refl
bit_or-zero_below zero (suc a) h = absurd (omega arith)
bit_or-zero_below (suc n) (suc a) h =
    omega (arith, bit_or-halve (suc a) 0, bit_or-zero_below n (suc a / 2) (omega arith))

bit_and-zero_below : (n a : ℕ) → a ≤ n → bit_and a 0 ≡ 0
bit_and-zero_below n zero h = refl
bit_and-zero_below zero (suc a) h = absurd (omega arith)
bit_and-zero_below (suc n) (suc a) h =
    omega (arith, bit_and-halve (suc a) 0, bit_and-zero_below n (suc a / 2) (omega arith))

-- `x | (2 ^ k - 1)` sets the low `k` bits.
pub bit_or_ones :
    (k q r : ℕ) → r < 2 ^ k → bit_or (q * 2 ^ k + r) (2 ^ k - 1) ≡ q * 2 ^ k + (2 ^ k - 1)
bit_or_ones zero q r h =
    let e : r ≡ 0 = omega arith in
    rw (e) (omega (arith, bit_or-zero_below (q * 1 + 0) (q * 1 + 0) (omega arith)))
bit_or_ones (suc k) q r h = ground (
  arith,
  bit_or-halve (q * 2 ^ suc k + r) (2 ^ suc k - 1),
  ap (λ (t : ℕ). q * t) (pow-suc 2 k),
  pow-suc 2 k,
  one-le-pow k 2,
  bit_or_ones k q (r / 2) (omega (arith, pow-suc 2 k)),
)

-- `x & (2 ^ k - 1)` keeps the low `k` bits.
pub bit_and_ones : (k q r : ℕ) → r < 2 ^ k → bit_and (q * 2 ^ k + r) (2 ^ k - 1) ≡ r
bit_and_ones zero q r h = omega (arith, bit_and-zero_below (q * 1 + r) (q * 1 + r) (omega arith))
bit_and_ones (suc k) q r h = ground (
  arith,
  bit_and-halve (q * 2 ^ suc k + r) (2 ^ suc k - 1),
  ap (λ (t : ℕ). q * t) (pow-suc 2 k),
  pow-suc 2 k,
  one-le-pow k 2,
  bit_and_ones k q (r / 2) (omega (arith, pow-suc 2 k)),
)
