-- ===== src/Macros/Highest.antt =====
-- P2SAMEHIGHBIT and ISP2 of include/eoblock_defs.h, against the position of the highest bit that
-- highbit64 gives.
use Prim.Native.Nat.{bit_and, bit_xor}
use native.Mathlib.Nat.{
  mod-eq_of_lt, div-eq_of_lt, div-eq_of_lt-le, pow-le-pow_right, mod_self, pow-suc,
}
use native.Mathlib.Decide.{dec_lt}
use eoblock.Macros.High.{bit_and-high, bit_xor-high}
use eoblock.Macros.Laws.{two_pow_pos, bit_and-mask, highbit64_bounds}
use eoblock.Macros.Crossing.{quotient-zero, quotient-pos}
use eoblock.Macros.{p2_samehighbit_typed, highbit64, is_p2, sub64}
use eoblock.Prelude.{
  ℕ, suc, ◌-◌, ◌/◌, ◌^◌, ◌≤◌, ◌<◌, ◌≡◌, refl, sym, ap, ap₂, ◌∙◌, arith, Bool, ◌==◌, ltb, true,
  false, lt→ltb, le→ltb, ==_iff, eq→==, Bool-cases, inl, inr, subst,
}

-- The bit at the highest position, and the ones above it.
leading : (l x : ℕ) → 2 ^ l ≤ x → x < 2 ^ suc l → x / 2 ^ l ≡ 1
leading l x lo hi = div-eq_of_lt-le (2 ^ l) (omega arith) (omega (arith, hi, pow-suc 2 l))

above : (l m x : ℕ) → l < m → x < 2 ^ suc l → x / 2 ^ m ≡ 0
above l m x h hi =
    div-eq_of_lt (omega (arith, pow-le-pow_right {n = 2} (omega arith) {i = suc l} {j = m} h))

xor-at : (m x y a b : ℕ) → x / 2 ^ m ≡ a → y / 2 ^ m ≡ b → bit_xor x y / 2 ^ m ≡ bit_xor a b
xor-at m x y a b e f = bit_xor-high m x y ∙ ap₂ bit_xor e f

and-at : (m x y a b : ℕ) → x / 2 ^ m ≡ a → y / 2 ^ m ≡ b → bit_and x y / 2 ^ m ≡ bit_and a b
and-at m x y a b e f = bit_and-high m x y ∙ ap₂ bit_and e f

module _ (x y : ℕ) where
  abbrev same_high : Bool
  same_high = ltb (bit_xor x y) (bit_and x y)

  same_high-equal : (m : ℕ) → x / 2 ^ m ≡ 1 → y / 2 ^ m ≡ 1 → same_high ≡ true
  same_high-equal m e f = lt→ltb (bit_xor x y) (bit_and x y) (
      omega (
        arith,
        quotient-zero m (bit_xor x y) (xor-at m x y 1 1 e f),
        quotient-pos m (bit_and x y) (omega (arith, and-at m x y 1 1 e f)),
      ))

  same_high-apart :
      (m a b : ℕ)
      → x / 2 ^ m ≡ a
      → y / 2 ^ m ≡ b
      → bit_xor a b ≡ 1
      → bit_and a b ≡ 0
      → same_high ≡ false
  same_high-apart m a b e f one none = le→ltb (bit_xor x y) (bit_and x y) (
      omega (
        arith,
        quotient-pos m (bit_xor x y) (omega (arith, xor-at m x y a b e f, one)),
        quotient-zero m (bit_and x y) (and-at m x y a b e f ∙ none),
      ))

  module _ (l m : ℕ) (lo : 2 ^ l ≤ x) (hi : x < 2 ^ suc l) (lo' : 2 ^ m ≤ y)
      (hi' : y < 2 ^ suc m) where
    same_high-eq : same_high ≡ (l == m)
    same_high-eq = elim (dec_lt l m) [
      | yes below ↦
          same_high-apart m 0 1 (above l m x below hi) (leading m y lo' hi') refl refl
          ∙ ground arith
      | no p ↦ elim (dec_lt m l) [
        | yes over ↦
            same_high-apart l 1 0 (leading l x lo hi) (above m l y over hi') refl refl
            ∙ ground arith
        | no r ↦
            let e : l ≡ m = omega arith in
            same_high-equal m (subst (λ t. x / 2 ^ t ≡ 1) e (leading l x lo hi))
              (leading m y lo' hi')
            ∙ sym (eq→== l m e)
      ]
    ]

-- Of two numbers of uint64_t that are not 0, P2SAMEHIGHBIT says whether highbit64 is the same.
pub p2_samehighbit_typed-eq :
    (x y : ℕ)
    → 1 ≤ x
    → x < 2 ^ 64
    → 1 ≤ y
    → y < 2 ^ 64
    → p2_samehighbit_typed 64 x y ≡ (highbit64 64 x == highbit64 64 y)
unfolding p2_samehighbit_typed
p2_samehighbit_typed-eq x y pos h pos' g =
    let (lt, lo, hi) = highbit64_bounds x pos h in
    let (lt', lo', hi') = highbit64_bounds y pos' g in
    ap₂ (λ a b. ltb (bit_xor a b) (bit_and a b)) (mod-eq_of_lt h) (mod-eq_of_lt g)
    ∙ same_high-eq x y (highbit64 64 x) (highbit64 64 y) lo hi lo' hi'

-- A power of two, and what lies above it up to the next one.
power-low : (l : ℕ) → bit_and (2 ^ l) (2 ^ l - 1) ≡ 0
power-low l = bit_and-mask l (2 ^ l) ∙ mod_self (2 ^ l)

other-high : (l x : ℕ) → 2 ^ l < x → x < 2 ^ suc l → 2 ^ l ≤ bit_and x (x - 1)
other-high l x lo hi = quotient-pos l (bit_and x (x - 1)) (
    omega (
      arith,
      and-at l x (x - 1) 1 1 (leading l x (omega arith) hi)
          (leading l (x - 1) (omega arith) (omega arith)),
    ))

-- ISP2 of a number of uint64_t that is not 0 says whether it is the power of two at its highest bit.
pub is_p2-eq : (x : ℕ) → 1 ≤ x → x < 2 ^ 64 → is_p2 x ≡ (x == 2 ^ highbit64 64 x)
unfolding is_p2
is_p2-eq x pos h =
    let l : ℕ = highbit64 64 x in
    let (lt, lo, hi) = highbit64_bounds x pos h in
    let e : sub64 x 1 ≡ x - 1 = omega arith in
    ap (λ y. bit_and x y == 0) e ∙ elim (Bool-cases (x == 2 ^ l)) [
      | inl same ↦
          let p : x ≡ 2 ^ l = (==_iff x (2 ^ l)).0 same in
          eq→== (bit_and x (x - 1)) 0 (ap (λ y. bit_and y (y - 1)) p ∙ power-low l) ∙ sym same
      | inr other ↦
          let ne : ¬ (x ≡ 2 ^ l) = λ p. cc (other, (==_iff x (2 ^ l)).1 p) in
          let big : 2 ^ l ≤ bit_and x (x - 1) = other-high l x (omega (arith, lo, ne)) hi in
          let z : (bit_and x (x - 1) == 0) ≡ false = let p = two_pow_pos l in ground arith in
          z ∙ sym other
    ]
