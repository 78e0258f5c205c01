-- ===== src/Macros/Rounding.antt =====
-- P2ROUNDUP and P2PHASEUP of include/eoblock_defs.h, which may pass the end of the type.
use Prim.Native.Nat.{◌∣◌, bit_or, bit_and}
use native.Mathlib.Nat.{
  zero-mod, zero-mul, mod-lt, add-mod_right, mod_self, mod-mod_of_dvd, dvd-mul_left, div-eq_of_lt,
}
use native.Mathlib.Decide.{dec_lt}
use eoblock.Macros.Laws.{two_pow_pos, bit_or-mask, split_at, mod-two_pow-lt}
use eoblock.Macros.Powers.{
  cast-same, low_mask, fewer, bit_and-high_mask, minus_above, minus_below, quotient_of,
  two_pow_split, sub_mul,
}
use eoblock.Macros.{cast, minus, negate, p2_roundup_typed, p2_phaseup_typed}
use eoblock.Prelude.{
  ℕ, zero, suc, ◌+◌, ◌-◌, ◌*◌, ◌/◌, ◌%◌, ◌^◌, ◌≤◌, ◌<◌, ◌≡◌, sym, ap, ap₂, ◌∙◌, arith, subst,
}

module _ (k n : ℕ) (above : 1 ≤ n) (x : ℕ) (h : x < 2 ^ (k + n)) where
  abbrev w : ℕ
  w = k + n

  -- The number before, which for 0 is the last one of the type.
  or_mask :
      bit_or (minus w (cast w x) 1) (minus w (cast w (2 ^ k)) 1)
      ≡ minus w x 1 / 2 ^ k * 2 ^ k + (2 ^ k - 1)
  or_mask =
      ap₂ bit_or (ap (λ a. minus w a 1) (cast-same k n above x h)) (low_mask k n above)
      ∙ bit_or-mask k (minus w x 1)

  block-le : 2 ^ k ≤ 2 ^ n * 2 ^ k
  block-le = omega (arith, two_pow_split k n, fewer k n above)

  whole : (2 ^ n - 1) * 2 ^ k + (2 ^ k - 1) + 1 ≡ 2 ^ w
  whole =
      omega
        (arith, two_pow_split k n, two_pow_pos k, sub_mul (2 ^ n) (2 ^ k) (two_pow_pos n), block-le)

  last : minus w 0 1 ≡ (2 ^ n - 1) * 2 ^ k + (2 ^ k - 1)
  last = minus_below w 0 1 (omega arith) (two_pow_pos w) ∙ omega (arith, whole)

  shifted : (x : ℕ) → suc x + (2 ^ k - 1) ≡ (x / 2 ^ k + 1) * 2 ^ k + x % 2 ^ k
  shifted x = omega (arith, split_at k x, two_pow_pos k)

  add_block : (q : ℕ) → q * 2 ^ k + (2 ^ k - 1) + 1 ≡ (q + 1) * 2 ^ k
  add_block q = omega (arith, two_pow_pos k)

  rounded :
      (x : ℕ)
      → x < 2 ^ w
      → (minus w x 1 / 2 ^ k * 2 ^ k + (2 ^ k - 1) + 1) % 2 ^ w
        ≡ ((x + (2 ^ k - 1)) / 2 ^ k * 2 ^ k) % 2 ^ w
  rounded zero h =
      ap (λ m. (m / 2 ^ k * 2 ^ k + (2 ^ k - 1) + 1) % 2 ^ w) last
      ∙ ap (λ m. (m * 2 ^ k + (2 ^ k - 1) + 1) % 2 ^ w)
          (quotient_of (2 ^ n - 1) (2 ^ k) (2 ^ k - 1) (omega (arith, two_pow_pos k)))
      ∙ ap (λ m. m % 2 ^ w) whole
      ∙ mod_self (2 ^ w)
      ∙ sym (
          ap (λ m. (m * 2 ^ k) % 2 ^ w) (div-eq_of_lt (omega (arith, two_pow_pos k)))
          ∙ ap (λ m. m % 2 ^ w) (zero-mul (2 ^ k))
          ∙ zero-mod (2 ^ w))
  rounded (suc x) h =
      let e : minus w (suc x) 1 ≡ x = minus_above w (suc x) 1 (omega arith) h ∙ omega arith in
      let f : (suc x + (2 ^ k - 1)) / 2 ^ k ≡ x / 2 ^ k + 1 =
        ap (λ m. m / 2 ^ k) (shifted x)
        ∙ quotient_of (x / 2 ^ k + 1) (2 ^ k) (x % 2 ^ k) (mod-two_pow-lt k x) in
      ap (λ m. m % 2 ^ w)
        (ap (λ m. m / 2 ^ k * 2 ^ k + (2 ^ k - 1) + 1) e
          ∙ add_block (x / 2 ^ k)
          ∙ ap (λ m. m * 2 ^ k) (sym f))

  pub p2_roundup_typed-eq :
      p2_roundup_typed w x (2 ^ k) ≡ ((x + (2 ^ k - 1)) / 2 ^ k * 2 ^ k) % 2 ^ w
  unfolding p2_roundup_typed
  p2_roundup_typed-eq = ap (λ m. cast w (m + 1)) or_mask ∙ rounded x h

  module _ (phase : ℕ) (g : phase < 2 ^ (k + n)) where
    abbrev t : ℕ
    t = minus w phase x

    low-t : t % 2 ^ k ≡ (phase + 2 ^ w - x) % 2 ^ k
    low-t =
        mod-mod_of_dvd (2 ^ k) (phase + 2 ^ w - x)
          (subst (λ m. 2 ^ k ∣ m) (sym (two_pow_split k n)) (dvd-mul_left (2 ^ k) (2 ^ n)))

    taken : minus w phase (t / 2 ^ k * 2 ^ k) ≡ (x + t % 2 ^ k) % 2 ^ w
    taken = elim (dec_lt phase x) [
      | yes below ↦
          let e : t ≡ phase + 2 ^ w - x = minus_below w phase x below (omega arith) in
          ap (λ m. m % 2 ^ w) (omega (arith, e, split_at k t))
      | no p ↦
          let e : t ≡ phase - x = minus_above w phase x (omega arith) g in
          ap (λ m. m % 2 ^ w) (omega (arith, e, split_at k t))
          ∙ add-mod_right (x + t % 2 ^ k) (2 ^ w)
    ]

    pub p2_phaseup_typed-eq :
        p2_phaseup_typed w x (2 ^ k) phase ≡ (x + (phase + 2 ^ w - x) % 2 ^ k) % 2 ^ w
    unfolding p2_phaseup_typed
    p2_phaseup_typed-eq =
        ap₂ (λ p a. minus w p (bit_and (minus w p a) (negate w (cast w (2 ^ k)))))
          (cast-same k n above phase g) (cast-same k n above x h)
        ∙ ap (minus w phase)
            (bit_and-high_mask k n above t (mod-lt (phase + 2 ^ w - x) (two_pow_pos w)))
        ∙ taken
        ∙ ap (λ m. (x + m) % 2 ^ w) low-t
