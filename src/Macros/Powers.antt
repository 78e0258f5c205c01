-- ===== src/Macros/Powers.antt =====
-- What the typed macros of include/eoblock_defs.h compute where the alignment is a power of two: sums,
-- quotients and remainders.
use Prim.Native.Nat.{◌∣◌, bit_and}
use native.Mathlib.Nat.{
  pow-suc, pow-le-pow_right, div-lt_iff_lt-mul, mod-eq_of_lt, add-mod_right, mod-mod_of_dvd,
  dvd-mul_left, mul-add-mod_self_right, add-mul-div_right, div-eq_of_lt,
}
use eoblock.Macros.Digits.{bit_and-halve}
use eoblock.Macros.Laws.{two_pow_pos, bit_and-mask, split_at, mod-two_pow-lt}
use eoblock.Macros.{
  cast, minus, negate, complement, p2_align_typed, p2_phase_typed, p2_nphase_typed, p2_end_typed,
}
use eoblock.Prelude.{
  ℕ, zero, suc, ◌+◌, ◌-◌, ◌*◌, ◌/◌, ◌%◌, ◌^◌, ◌≤◌, ◌<◌, ◌≡◌, sym, ap, ap₂, ◌∙◌, subst, arith,
}

pub two_pow_split : (k n : ℕ) → 2 ^ (k + n) ≡ 2 ^ n * 2 ^ k
two_pow_split zero n = rw (add_zero n) (omega arith)
  where
    add_zero : (n : ℕ) → zero + n ≡ n
    add_zero n = omega arith
two_pow_split (suc k) n = grind (arith, pow-suc 2 (k + n), pow-suc 2 k, two_pow_split k n)

-- A difference on the type, without and with a borrow.
pub minus_above : (w x y : ℕ) → y ≤ x → x < 2 ^ w → minus w x y ≡ x - y
minus_above w x y h fits =
    let e : x + 2 ^ w - y ≡ x - y + 2 ^ w = omega arith in
    ap (λ n. n % 2 ^ w) e ∙ add-mod_right (x - y) (2 ^ w) ∙ mod-eq_of_lt (omega arith)

pub minus_below : (w x y : ℕ) → x < y → y ≤ 2 ^ w → minus w x y ≡ x + 2 ^ w - y
minus_below w x y h fits = mod-eq_of_lt (omega arith)

pub sub_mul : (a b : ℕ) → 1 ≤ a → a * b - b ≡ (a - 1) * b
sub_mul zero b h = absurd (omega arith)
sub_mul (suc a) b h = grind arith

spread : (a q b : ℕ) → q < a → a * b ≡ (a - 1 - q) * b + b + q * b
spread a q b h = let e : a ≡ a - 1 - q + 1 + q = omega arith in ap (λ m. m * b) e ∙ grind arith

pub quotient_of : (a b r : ℕ) → r < b → (a * b + r) / b ≡ a
quotient_of a b r h =
    ap (λ m. m / b) (omega arith)
    ∙ add-mul-div_right r a (omega arith)
    ∙ ap (λ m. m + a) (div-eq_of_lt h)
    ∙ omega arith

-- The digits above the lowest `k`, out of `k + n`.
bit_and_high_ones :
    (k n q r : ℕ)
    → q < 2 ^ n
    → r < 2 ^ k
    → bit_and (q * 2 ^ k + r) ((2 ^ n - 1) * 2 ^ k) ≡ q * 2 ^ k
bit_and_high_ones zero n q r h g =
    let e : q * 2 ^ 0 + r ≡ q = omega arith in
    let f : (2 ^ n - 1) * 2 ^ 0 ≡ 2 ^ n - 1 = omega arith in
    ap₂ bit_and e f ∙ bit_and-mask n q ∙ grind arith
bit_and_high_ones (suc k) n q r h g = ground (
  arith,
  bit_and-halve (q * 2 ^ suc k + r) ((2 ^ n - 1) * 2 ^ suc k),
  ap (λ (t : ℕ). q * t) (pow-suc 2 k),
  ap (λ (t : ℕ). (2 ^ n - 1) * t) (pow-suc 2 k),
  pow-suc 2 k,
  bit_and_high_ones k n q (r / 2) h (omega (arith, pow-suc 2 k)),
)

-- The alignment is `2 ^ k`, on a type of `k + n` bits, one of them above the alignment.
module _ (k n : ℕ) (above : 1 ≤ n) where
  abbrev w : ℕ
  w = k + n

  abbrev q : ℕ → ℕ
  q x = x / 2 ^ k

  pub fewer : 2 * 2 ^ k ≤ 2 ^ w
  fewer =
      omega (
        arith,
        pow-suc 2 k,
        pow-le-pow_right {n = 2} (omega arith) {i = suc k} {j = w} (omega arith),
      )

  cast-align : cast w (2 ^ k) ≡ 2 ^ k
  cast-align = mod-eq_of_lt (omega (arith, fewer, two_pow_pos k))

  pub low_mask : minus w (cast w (2 ^ k)) 1 ≡ 2 ^ k - 1
  low_mask =
      ap (λ a. minus w a 1) cast-align
      ∙ minus_above w (2 ^ k) 1 (two_pow_pos k) (omega (arith, fewer, two_pow_pos k))

  high_mask : negate w (cast w (2 ^ k)) ≡ (2 ^ n - 1) * 2 ^ k
  high_mask =
      ap (negate w) cast-align
      ∙ minus_below w 0 (2 ^ k) (two_pow_pos k) (omega (arith, fewer))
      ∙ (omega (arith, two_pow_split k n, sub_mul (2 ^ n) (2 ^ k) (two_pow_pos n)))

  quotient-lt : (x : ℕ) → x < 2 ^ w → q x < 2 ^ n
  quotient-lt x h = (div-lt_iff_lt-mul (two_pow_pos k)).1 (subst (λ m. x < m) (two_pow_split k n) h)

  pub bit_and-high_mask : (x : ℕ) → x < 2 ^ w → bit_and x (negate w (cast w (2 ^ k))) ≡ q x * 2 ^ k
  bit_and-high_mask x h =
      ap₂ bit_and (sym (split_at k x)) high_mask
      ∙ bit_and_high_ones k n (q x) (x % 2 ^ k) (quotient-lt x h) (mod-two_pow-lt k x)

  -- Of a number of the type.
  module _ (x : ℕ) (h : x < 2 ^ w) where
    pub cast-same : cast w x ≡ x
    cast-same = mod-eq_of_lt h

    pub p2_align_typed-eq : p2_align_typed w x (2 ^ k) ≡ q x * 2 ^ k
    unfolding p2_align_typed
    p2_align_typed-eq =
        ap (λ y. bit_and y (negate w (cast w (2 ^ k)))) cast-same ∙ bit_and-high_mask x h

    pub p2_phase_typed-eq : p2_phase_typed w x (2 ^ k) ≡ x % 2 ^ k
    unfolding p2_phase_typed
    p2_phase_typed-eq = ap₂ bit_and cast-same low_mask ∙ bit_and-mask k x

    -- The quotient and the remainder are the number.
    parts : q x * 2 ^ k + x % 2 ^ k ≡ x
    parts = split_at k x

    rest-lt : x % 2 ^ k < 2 ^ k
    rest-lt = mod-two_pow-lt k x

    -- `2 ^ w` less the number, in multiples of the alignment.
    multiples : 2 ^ w ≡ (2 ^ n - 1 - q x) * 2 ^ k + 2 ^ k + q x * 2 ^ k
    multiples = two_pow_split k n ∙ spread (2 ^ n) (q x) (2 ^ k) (quotient-lt x h)

    missing : 0 + 2 ^ w - x ≡ (2 ^ n - 1 - q x) * 2 ^ k + (2 ^ k - x % 2 ^ k)
    missing = omega (arith, multiples, parts, rest-lt)

    pub p2_nphase_typed-eq : p2_nphase_typed w x (2 ^ k) ≡ (2 ^ k - x % 2 ^ k) % 2 ^ k
    unfolding p2_nphase_typed
    p2_nphase_typed-eq =
        ap₂ bit_and (ap (negate w) cast-same) low_mask
        ∙ bit_and-mask k (negate w x)
        ∙ mod-mod_of_dvd (2 ^ k) (0 + 2 ^ w - x)
            (subst (λ m. 2 ^ k ∣ m) (sym (two_pow_split k n)) (dvd-mul_left (2 ^ k) (2 ^ n)))
        ∙ ap (λ m. m % 2 ^ k) missing
        ∙ mul-add-mod_self_right (2 ^ n - 1 - q x) (2 ^ k) (2 ^ k - x % 2 ^ k)

    -- All bits of the number turned, in multiples of the alignment.
    turned : complement w x ≡ (2 ^ n - 1 - q x) * 2 ^ k + (2 ^ k - 1 - x % 2 ^ k)
    turned = omega (arith, missing, rest-lt)

    turned-quotient : q (complement w x) ≡ 2 ^ n - 1 - q x
    turned-quotient =
        ap q turned
        ∙ quotient_of (2 ^ n - 1 - q x) (2 ^ k) (2 ^ k - 1 - x % 2 ^ k)
            (omega (arith, two_pow_pos k))

    pub p2_end_typed-eq : p2_end_typed w x (2 ^ k) ≡ ((q x + 1) * 2 ^ k) % 2 ^ w
    unfolding p2_end_typed
    p2_end_typed-eq =
        ap (λ y. negate w (bit_and (complement w y) (negate w (cast w (2 ^ k))))) cast-same
        ∙ ap (negate w) (
            bit_and-high_mask (complement w x) (omega (arith, two_pow_pos w))
            ∙ ap (λ m. m * 2 ^ k) turned-quotient)
        ∙ ap (λ m. m % 2 ^ w) omega (arith, multiples)
