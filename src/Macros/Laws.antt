-- ===== src/Macros/Laws.antt =====
-- What the macros of include/eoblock_defs.h compute, for powers of two and for `uint64_t`.
use Prim.Native.Nat.{bit_and, bit_or}
use native.Mathlib.Nat.{pow-suc, one-le-pow, pow-le-pow_right}
use native.Mathlib.Decide.{dec_lt}
use eoblock.Macros.Digits.{bit_or_ones, bit_and_ones}
use eoblock.Macros.{eob_fls64, sub64, bit_length, p2_roundup, p2_phase, clzll, highbit64}
use eoblock.Prelude.{ℕ, zero, suc, ◌+◌, ◌-◌, ◌*◌, ◌/◌, ◌%◌, ◌^◌, ◌≤◌, ◌<◌, ◌≡◌, refl, arith}

pub two_pow_pos : (k : ℕ) → 1 ≤ 2 ^ k
two_pow_pos k = one-le-pow k 2 (omega arith)

two_pow-le : (k : ℕ) → k < 64 → 2 ^ k ≤ 2 ^ 63
two_pow-le k h = pow-le-pow_right (omega arith) {j = 63} (omega arith)

sub64-mask : (k : ℕ) → k < 64 → sub64 (2 ^ k) 1 ≡ 2 ^ k - 1
sub64-mask k h = omega (arith, two_pow_pos k, two_pow-le k h)

pub split_at : (k x : ℕ) → (x / 2 ^ k) * 2 ^ k + x % 2 ^ k ≡ x
split_at k x = grind arith

pub mod-two_pow-lt : (k x : ℕ) → x % 2 ^ k < 2 ^ k
mod-two_pow-lt k x = omega (arith, two_pow_pos k)

pub bit_and-mask : (k x : ℕ) → bit_and x (2 ^ k - 1) ≡ x % 2 ^ k
bit_and-mask k x =
    rw (split_at k x) at (bit_and_ones k (x / 2 ^ k) (x % 2 ^ k) (mod-two_pow-lt k x))

pub bit_or-mask : (k x : ℕ) → bit_or x (2 ^ k - 1) ≡ (x / 2 ^ k) * 2 ^ k + (2 ^ k - 1)
bit_or-mask k x = rw (split_at k x) at (bit_or_ones k (x / 2 ^ k) (x % 2 ^ k) (mod-two_pow-lt k x))

-- P2PHASE by a power of two, of an exponent below 64, is the remainder.
p2_phase-eq-mod : (k x : ℕ) → k < 64 → p2_phase x (2 ^ k) ≡ x % 2 ^ k
unfolding p2_phase
p2_phase-eq-mod k x h = rw (sub64-mask k h) (bit_and-mask k x)

-- P2ROUNDUP of `x` to `2 ^ k` is the next multiple of it, for `x` of at least 1 and where the
-- result is a uint64_t.
pub p2_roundup-eq :
    (k x : ℕ)
    → k < 64
    → 1 ≤ x
    → x + 2 ^ k ≤ 2 ^ 64
    → p2_roundup x (2 ^ k) ≡ ((x - 1) / 2 ^ k) * 2 ^ k + 2 ^ k
unfolding p2_roundup
p2_roundup-eq k x h pos fits =
    let e : sub64 x 1 ≡ x - 1 = omega (arith, two_pow_pos k) in
    rw (sub64-mask k h, e, bit_or-mask k (x - 1)) (omega (arith, split_at k (x - 1), two_pow_pos k))

bit_length-zero : (n : ℕ) → bit_length n 0 ≡ 0
unfolding bit_length
bit_length-zero zero = refl
bit_length-zero (suc n) = refl

-- A positive number that fits `n` digits has a highest one.
bit_length_lem :
    (n x : ℕ)
    → 1 ≤ x
    → x < 2 ^ n
    → (l : ℕ) × (bit_length n x ≡ suc l) × (l < n) × (2 ^ l ≤ x) × (x < 2 ^ suc l)
unfolding bit_length
bit_length_lem zero x pos h = absurd (omega arith)
bit_length_lem (suc n) x pos h = elim (dec_lt x 2) [
  | yes small ↦
      let one : x ≡ 1 = omega arith in
      let rest : x / 2 ≡ 0 = omega arith in
      (0, rw rest (rw (bit_length-zero n) (ground arith)), omega arith, omega arith, omega arith)
  | no big ↦
      let (l, e, lt, lo, hi) =
        bit_length_lem n (x / 2) (omega arith) (omega (arith, pow-suc 2 n)) in
      (
        suc l,
        ground arith,
        omega arith,
        omega (arith, pow-suc 2 l),
        omega (arith, pow-suc 2 (suc l)),
      )
]

highbit64_of_length :
    (x w l : ℕ)
    → 1 ≤ x
    → bit_length 64 x ≡ suc l
    → l < 64
    → w ≤ 64
    → highbit64 w x ≡ (l + w + 2 ^ 64 - 64) % 2 ^ 64
unfolding highbit64 clzll
highbit64_of_length x w l pos e lt hw = ground arith

-- `highbit64` of a non-zero `uint64_t` is the position of its highest set bit.
pub highbit64_bounds :
    (x : ℕ)
    → 1 ≤ x
    → x < 2 ^ 64
    → (highbit64 64 x < 64) × (2 ^ highbit64 64 x ≤ x) × (x < 2 ^ suc (highbit64 64 x))
highbit64_bounds x pos h =
    let (l, e, lt, lo, hi) = bit_length_lem 64 x pos h in
    let v : highbit64 64 x ≡ l = omega (arith, highbit64_of_length x 64 l pos e lt) in
    rw v (lt, lo, hi)

-- Powers of two are ordered as their exponents.
lt_of_two_pow-lt : (l m : ℕ) → 2 ^ l < 2 ^ m → l < m
lt_of_two_pow-lt l m h = elim (dec_lt l m) [
  | yes p ↦ p
  | no p ↦
      absurd (omega (arith, pow-le-pow_right {n = 2} (omega arith) {i = m} {j = l} (omega arith)))
]

-- highbit64 of a non-zero operand of 32 bits is 32 less than of one of 64 bits, modulo 2 ^ 64.
highbit64_narrow : (x : ℕ) → 1 ≤ x → x < 2 ^ 32 → highbit64 32 x ≡ highbit64 64 x + 2 ^ 64 - 32
highbit64_narrow x pos h =
    let (l, e, lt, lo, hi) = bit_length_lem 64 x pos (omega arith) in
    let small : l < 32 = lt_of_two_pow-lt l 32 (omega arith) in
    omega (arith, highbit64_of_length x 64 l pos e lt, highbit64_of_length x 32 l pos e lt)

-- The byte that the shift of a disk's block becomes.
pub highbit64_int_16k : highbit64 32 (4 * 4096) % 256 ≡ 238
unfolding highbit64 eob_fls64 clzll
highbit64_int_16k = refl
