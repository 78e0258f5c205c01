-- ===== src/Macros/High.antt =====
-- The high digits of `bit_and` and `bit_xor`, and numbers that differ in none.
use Prim.Native.Nat.{differ, bit_and, bit_xor, bit_xor-bitwise}
use native.Mathlib.Nat.{pow-suc, div-div-eq-div-mul}
use eoblock.Macros.Digits.{bit_and-halve, bit_xor-halve}
use eoblock.Prelude.{ℕ, zero, suc, ◌/◌, ◌%◌, ◌^◌, ◌≤◌, ◌<◌, ◌≡◌, refl, sym, ap, ap₂, ◌∙◌, arith}

differ-lt : (a b : ℕ) → a < 2 → b < 2 → differ a b < 2
differ-lt zero b h g = g
differ-lt (suc a) zero h g = h
differ-lt (suc a) (suc b) h g = differ-lt a b (omega arith) (omega arith)

differ_self : (a : ℕ) → differ a a ≡ 0
differ_self zero = refl
differ_self (suc a) = differ_self a

differ-zero : (a b : ℕ) → differ a b ≡ 0 → a ≡ b
differ-zero zero b h = sym h
differ-zero (suc a) zero h = h
differ-zero (suc a) (suc b) h = ap suc (differ-zero a b h)

div-one : (n : ℕ) → n / 2 ^ 0 ≡ n
div-one n = omega arith

halve_first : (k n : ℕ) → n / 2 ^ suc k ≡ n / 2 / 2 ^ k
halve_first k n =
    ap (λ p. n / p) (omega (arith, pow-suc 2 k)) ∙ sym (div-div-eq-div-mul n 2 (2 ^ k))

-- An operation on the digits, which the halves determine but for the last digit.
module _ (op : ℕ → ℕ → ℕ) (halve : (a b : ℕ) → op a b / 2 ≡ op (a / 2) (b / 2)) where
  high : (k a b : ℕ) → op a b / 2 ^ k ≡ op (a / 2 ^ k) (b / 2 ^ k)
  high zero a b = div-one (op a b) ∙ ap₂ op (sym (div-one a)) (sym (div-one b))
  high (suc k) a b =
      halve_first k (op a b)
      ∙ ap (λ n. n / 2 ^ k) (halve a b)
      ∙ high k (a / 2) (b / 2)
      ∙ ap₂ op (sym (halve_first k a)) (sym (halve_first k b))

pub bit_and-high : (k a b : ℕ) → bit_and a b / 2 ^ k ≡ bit_and (a / 2 ^ k) (b / 2 ^ k)
bit_and-high = high bit_and (λ a b. omega (arith, bit_and-halve a b))

pub bit_xor-high : (k a b : ℕ) → bit_xor a b / 2 ^ k ≡ bit_xor (a / 2 ^ k) (b / 2 ^ k)
bit_xor-high =
    high bit_xor (λ a b.
      omega (arith, bit_xor-halve a b, differ-lt (a % 2) (b % 2) (omega arith) (omega arith)))

bit_xor-zero_left : (b : ℕ) → bit_xor 0 b ≡ b
bit_xor-zero_left b = simp bit_xor-bitwise

bit_xor_self_below : (n a : ℕ) → a ≤ n → bit_xor a a ≡ 0
bit_xor_self_below zero a h = let e : a ≡ 0 = omega arith in rw e refl
bit_xor_self_below (suc n) a h =
    omega
      (arith, bit_xor-halve a a, differ_self (a % 2), bit_xor_self_below n (a / 2) (omega arith))

pub bit_xor_self : (a : ℕ) → bit_xor a a ≡ 0
bit_xor_self a = bit_xor_self_below a a (omega arith)

bit_xor-zero_below : (n a b : ℕ) → a ≤ n → bit_xor a b ≡ 0 → a ≡ b
bit_xor-zero_below zero a b h e =
    let z : a ≡ 0 = omega arith in
    z ∙ sym (sym (bit_xor-zero_left b) ∙ ap (λ n. bit_xor n b) (sym z) ∙ e)
bit_xor-zero_below (suc n) a b h e =
    let low : a % 2 ≡ b % 2 = differ-zero (a % 2) (b % 2) (omega (arith, bit_xor-halve a b)) in
    let rest : a / 2 ≡ b / 2 =
      bit_xor-zero_below n (a / 2) (b / 2) (omega arith) (omega (arith, bit_xor-halve a b)) in
    omega arith

pub bit_xor-zero : (a b : ℕ) → bit_xor a b ≡ 0 → a ≡ b
bit_xor-zero a b e = bit_xor-zero_below a a b (omega arith) e
