-- ===== src/Macros.antt =====
-- include/eoblock_defs.h: the power-of-two macros and `highbit64`, as they compute on `uint64_t`, and
-- the typed ones, as they compute on an unsigned type of 32 bits or more, which C does not promote.
mod Digits
mod High
mod Powers
mod Crossing
mod Highest
mod Rounding
pub mod Alignment
pub mod Laws
use Prim.Native.Nat.{bit_and, bit_or, bit_xor}
use eoblock.Prelude.{ℕ, zero, suc, ◌+◌, ◌-◌, ◌/◌, ◌%◌, ◌^◌, Bool, ltb, ◌==◌, if◌then◌else◌}

-- The values of `uint64_t` and `size_t`.
abbrev pub u64 : ℕ → ℕ
u64 x = x % 2 ^ 64

-- `x - y` on `uint64_t`, for `y` of that type.
abbrev pub sub64 : ℕ → ℕ → ℕ
sub64 x y = (x + 2 ^ 64 - y) % 2 ^ 64

unfoldable p2_align : ℕ → ℕ → ℕ
p2_align x align = bit_and x (sub64 0 align)

unfoldable pub p2_roundup : ℕ → ℕ → ℕ
p2_roundup x align = u64 (bit_or (sub64 x 1) (sub64 align 1) + 1)

unfoldable pub p2_phase : ℕ → ℕ → ℕ
p2_phase x align = bit_and x (sub64 align 1)

unfoldable is_p2 : ℕ → Bool
is_p2 x = bit_and x (sub64 x 1) == 0

unfoldable p2_cross : ℕ → ℕ → ℕ → Bool
p2_cross x y align = ltb (sub64 align 1) (bit_xor x y)

unfoldable p2_nphase : ℕ → ℕ → ℕ
p2_nphase x align = bit_and (sub64 0 x) (sub64 align 1)

unfoldable is_p2_aligned : ℕ → ℕ → Bool
is_p2_aligned v a = bit_and v (sub64 a 1) == 0

unfoldable p2_boundary : ℕ → ℕ → ℕ → Bool
p2_boundary off len align = ltb (sub64 align 1) (bit_xor off (sub64 (u64 (off + len)) 1))

-- An unsigned type of `w` bits that is `unsigned int` (32 bits) or wider: the cast to it, and `x - y`,
-- `-x` and `~x` on it. A narrower type is promoted to `int` first, which is not what these compute.
module _ (w : ℕ) where
  abbrev cast : ℕ → ℕ
  cast x = x % 2 ^ w

  abbrev minus : ℕ → ℕ → ℕ
  minus x y = (x + 2 ^ w - y) % 2 ^ w

  abbrev negate : ℕ → ℕ
  negate x = minus 0 x

  abbrev complement : ℕ → ℕ
  complement x = 2 ^ w - 1 - x

  unfoldable p2_align_typed : ℕ → ℕ → ℕ
  p2_align_typed x align = bit_and (cast x) (negate (cast align))

  unfoldable p2_phase_typed : ℕ → ℕ → ℕ
  p2_phase_typed x align = bit_and (cast x) (minus (cast align) 1)

  unfoldable p2_nphase_typed : ℕ → ℕ → ℕ
  p2_nphase_typed x align = bit_and (negate (cast x)) (minus (cast align) 1)

  unfoldable p2_roundup_typed : ℕ → ℕ → ℕ
  p2_roundup_typed x align = cast (bit_or (minus (cast x) 1) (minus (cast align) 1) + 1)

  unfoldable p2_end_typed : ℕ → ℕ → ℕ
  p2_end_typed x align = negate (bit_and (complement (cast x)) (negate (cast align)))

  unfoldable p2_phaseup_typed : ℕ → ℕ → ℕ → ℕ
  p2_phaseup_typed x align phase =
      minus (cast phase) (bit_and (minus (cast phase) (cast x)) (negate (cast align)))

  unfoldable p2_cross_typed : ℕ → ℕ → ℕ → Bool
  p2_cross_typed x y align = ltb (minus (cast align) 1) (bit_xor (cast x) (cast y))

  unfoldable p2_samehighbit_typed : ℕ → ℕ → Bool
  p2_samehighbit_typed x y = ltb (bit_xor (cast x) (cast y)) (bit_and (cast x) (cast y))

-- The number of binary digits of `x`, of at most `n`.
pub bit_length : ℕ → ℕ → ℕ
bit_length zero x = 0
bit_length (suc n) x = let rest = suc (bit_length n (x / 2)) in if x == 0 then 0 else rest

-- The compiler's count of leading zeros of a non-zero `unsigned long long`.
pub clzll : ℕ → ℕ
unfolding bit_length
clzll x = 64 - bit_length 64 x

-- `sizeof(x) * 8` is `width`, that of the macro's argument.
eob_fls64 : ℕ → ℕ → ℕ
unfolding clzll
eob_fls64 width x = if x == 0 then 0 else sub64 width (clzll x)

unfoldable pub highbit64 : ℕ → ℕ → ℕ
unfolding eob_fls64
highbit64 width x = if x == 0 then 0 else sub64 (eob_fls64 width x) 1
