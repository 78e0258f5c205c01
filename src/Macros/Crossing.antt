-- ===== src/Macros/Crossing.antt =====
-- P2CROSS of include/eoblock_defs.h: whether two numbers lie in different blocks.
use Prim.Native.Nat.{bit_xor}
use eoblock.Macros.High.{bit_xor-high, bit_xor_self, bit_xor-zero}
use eoblock.Macros.Laws.{two_pow_pos}
use eoblock.Macros.Powers.{cast-same, low_mask}
use eoblock.Macros.{p2_cross_typed}
use eoblock.Prelude.{
  ℕ, ◌+◌, ◌-◌, ◌/◌, ◌^◌, ◌≤◌, ◌<◌, ◌≡◌, sym, ap, ap₂, ◌∙◌, arith, not, ◌==◌, ltb, lt→ltb, le→ltb,
  ==_iff, Bool-cases, inl, inr,
}

-- A number below a block ends before it, one at its start or behind does not.
pub quotient-zero : (k m : ℕ) → m / 2 ^ k ≡ 0 → m < 2 ^ k
quotient-zero k m e = grind (arith, two_pow_pos k)

pub quotient-pos : (k m : ℕ) → 1 ≤ m / 2 ^ k → 2 ^ k ≤ m
quotient-pos k m e = grind (arith, two_pow_pos k)

module _ (k n : ℕ) (above : 1 ≤ n) (x y : ℕ) (h : x < 2 ^ (k + n)) (g : y < 2 ^ (k + n)) where
  xor-quotient : bit_xor x y / 2 ^ k ≡ bit_xor (x / 2 ^ k) (y / 2 ^ k)
  xor-quotient = bit_xor-high k x y

  crossing : ltb (2 ^ k - 1) (bit_xor x y) ≡ not (x / 2 ^ k == y / 2 ^ k)
  crossing = elim (Bool-cases (x / 2 ^ k == y / 2 ^ k)) [
    | inl same ↦
        let e : x / 2 ^ k ≡ y / 2 ^ k = (==_iff (x / 2 ^ k) (y / 2 ^ k)).0 same in
        let none : bit_xor x y / 2 ^ k ≡ 0 =
          xor-quotient ∙ ap (λ m. bit_xor m (y / 2 ^ k)) e ∙ bit_xor_self (y / 2 ^ k) in
        rw same
          (le→ltb (2 ^ k - 1) (bit_xor x y) (omega (arith, quotient-zero k (bit_xor x y) none)))
    | inr other ↦
        let ne : ¬ (bit_xor x y / 2 ^ k ≡ 0) = λ e.
          let same : x / 2 ^ k ≡ y / 2 ^ k =
            bit_xor-zero (x / 2 ^ k) (y / 2 ^ k) (sym xor-quotient ∙ e) in
          cc (other, (==_iff (x / 2 ^ k) (y / 2 ^ k)).1 same) in
        let far : 2 ^ k ≤ bit_xor x y = quotient-pos k (bit_xor x y) (omega (arith, ne)) in
        rw other (lt→ltb (2 ^ k - 1) (bit_xor x y) (omega (arith, far, two_pow_pos k)))
  ]

  pub p2_cross_typed-eq : p2_cross_typed (k + n) x y (2 ^ k) ≡ not (x / 2 ^ k == y / 2 ^ k)
  unfolding p2_cross_typed
  p2_cross_typed-eq =
      ap₂ ltb (low_mask k n above) (ap₂ bit_xor (cast-same k n above x h) (cast-same k n above y g))
      ∙ crossing
