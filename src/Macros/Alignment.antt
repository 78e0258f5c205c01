-- ===== src/Macros/Alignment.antt =====
-- The power-of-two macros of include/eoblock_defs.h against quotients and remainders, on any unsigned
-- type of 32 bits or more, and on uint64_t, where the untyped ones compute the same.
use Prim.Native.Nat.{bit_and, bit_or, bit_xor}
use native.Mathlib.Nat.{mod-eq_of_lt, pow-le-pow_right}
use eoblock.Macros.Crossing.{p2_cross_typed-eq}
use eoblock.Macros.Highest.{is_p2-eq, p2_samehighbit_typed-eq}
use eoblock.Macros.Laws.{highbit64_bounds}
use eoblock.Macros.Powers.{
  p2_align_typed-eq, p2_phase_typed-eq, p2_nphase_typed-eq, p2_end_typed-eq,
}
use eoblock.Macros.Rounding.{p2_roundup_typed-eq, p2_phaseup_typed-eq}
use eoblock.Macros.{
  u64, sub64, p2_align_typed, p2_phase_typed, p2_nphase_typed, p2_roundup_typed, p2_end_typed,
  p2_phaseup_typed, p2_cross_typed, p2_samehighbit_typed, highbit64, is_p2, p2_align, p2_phase,
  p2_nphase, p2_roundup, p2_cross, is_p2_aligned, p2_boundary,
}
use eoblock.Prelude.{
  ℕ, suc, ◌+◌, ◌-◌, ◌*◌, ◌/◌, ◌%◌, ◌^◌, ◌≤◌, ◌<◌, ◌≡◌, sym, ap, ap₂, ◌∙◌, arith, not, ◌==◌, subst,
  ltb,
}

-- What the typed macros should be for the alignment `2 ^ k`.
abbrev pub Aligns : ℕ → ℕ → ℕ → ℕ → Type 0
Aligns w k x y =
    (p2_align_typed w x (2 ^ k) ≡ x / 2 ^ k * 2 ^ k)
    × (p2_phase_typed w x (2 ^ k) ≡ x % 2 ^ k)
    × (p2_nphase_typed w x (2 ^ k) ≡ (2 ^ k - x % 2 ^ k) % 2 ^ k)
    × (p2_roundup_typed w x (2 ^ k) ≡ ((x + (2 ^ k - 1)) / 2 ^ k * 2 ^ k) % 2 ^ w)
    × (p2_end_typed w x (2 ^ k) ≡ ((x / 2 ^ k + 1) * 2 ^ k) % 2 ^ w)
    × (p2_phaseup_typed w x (2 ^ k) y ≡ (x + (y + 2 ^ w - x) % 2 ^ k) % 2 ^ w)
    × (p2_cross_typed w x y (2 ^ k) ≡ not (x / 2 ^ k == y / 2 ^ k))

Aligns-above : (k n x y : ℕ) → 1 ≤ n → x < 2 ^ (k + n) → y < 2 ^ (k + n) → Aligns (k + n) k x y
Aligns-above k n x y above h g = (
  p2_align_typed-eq k n above x h,
  p2_phase_typed-eq k n above x h,
  p2_nphase_typed-eq k n above x h,
  p2_roundup_typed-eq k n above x h,
  p2_end_typed-eq k n above x h,
  p2_phaseup_typed-eq k n above x h y g,
  p2_cross_typed-eq k n above x y h g,
)

-- On an unsigned type of `w` bits, 32 or more so that C does not promote it to `int`, and for an
-- alignment to `2 ^ k` below its end, the macros are
-- quotients and remainders, modulo `2 ^ w`: P2ALIGN rounds down, P2PHASE is the remainder, P2NPHASE
-- is what is missing to a multiple, P2ROUNDUP is the next multiple from the number on, P2END the
-- next one behind it, P2PHASEUP the next number from it on with the remainder of the phase, and
-- P2CROSS says whether two numbers have different quotients.
pub p2_align_typed-Aligns : (w k x y : ℕ) → 32 ≤ w → k < w → x < 2 ^ w → y < 2 ^ w → Aligns w k x y
p2_align_typed-Aligns w k x y wide above h g =
    let e : k + (w - k) ≡ w = omega arith in
    subst (λ v. Aligns v k x y) e
      (Aligns-above k (w - k) x y (omega arith) (subst (λ v. x < 2 ^ v) (sym e) h)
        (subst (λ v. y < 2 ^ v) (sym e) g))

-- The untyped macros on `uint64_t`.
module _ (x a : ℕ) (h : x < 2 ^ 64) (g : a < 2 ^ 64) where
  p2_align-typed : p2_align x a ≡ p2_align_typed 64 x a
  unfolding p2_align p2_align_typed
  p2_align-typed = sym (ap₂ (λ x a. bit_and x (sub64 0 a)) (mod-eq_of_lt h) (mod-eq_of_lt g))

  p2_phase-typed : p2_phase x a ≡ p2_phase_typed 64 x a
  unfolding p2_phase p2_phase_typed
  p2_phase-typed = sym (ap₂ (λ x a. bit_and x (sub64 a 1)) (mod-eq_of_lt h) (mod-eq_of_lt g))

  p2_nphase-typed : p2_nphase x a ≡ p2_nphase_typed 64 x a
  unfolding p2_nphase p2_nphase_typed
  p2_nphase-typed =
      sym (ap₂ (λ x a. bit_and (sub64 0 x) (sub64 a 1)) (mod-eq_of_lt h) (mod-eq_of_lt g))

  p2_roundup-typed : p2_roundup x a ≡ p2_roundup_typed 64 x a
  unfolding p2_roundup p2_roundup_typed
  p2_roundup-typed =
      sym (ap₂ (λ x a. u64 (bit_or (sub64 x 1) (sub64 a 1) + 1)) (mod-eq_of_lt h) (mod-eq_of_lt g))

  p2_cross-typed : (y : ℕ) → y < 2 ^ 64 → p2_cross x y a ≡ p2_cross_typed 64 x y a
  unfolding p2_cross p2_cross_typed
  p2_cross-typed y i =
      ap₂ ltb (ap (λ a. sub64 a 1) (sym (mod-eq_of_lt g)))
        (ap₂ bit_xor (sym (mod-eq_of_lt h)) (sym (mod-eq_of_lt i)))

two_pow-lt : (k : ℕ) → k < 64 → 2 ^ k < 2 ^ 64
two_pow-lt k h =
    omega (arith, pow-le-pow_right {n = 2} (omega arith) {i = k} {j = 63} (omega arith))

is_p2_aligned-eq : (k v : ℕ) → k < 64 → v < 2 ^ 64 → is_p2_aligned v (2 ^ k) ≡ (v % 2 ^ k == 0)
unfolding is_p2_aligned p2_phase
is_p2_aligned-eq k v h g =
    ap (λ m. m == 0)
      (p2_phase-typed v (2 ^ k) g (two_pow-lt k h)
        ∙ (p2_align_typed-Aligns 64 k v v (omega arith) h g g).1)

p2_boundary-eq :
    (k off len : ℕ)
    → k < 64
    → off < 2 ^ 64
    → 1 ≤ len
    → off + len ≤ 2 ^ 64
    → p2_boundary off len (2 ^ k) ≡ not (off / 2 ^ k == (off + len - 1) / 2 ^ k)
unfolding p2_boundary p2_cross
p2_boundary-eq k off len h g pos fits =
    let last : sub64 (u64 (off + len)) 1 ≡ off + len - 1 = omega arith in
    let (e0, e1, e2, e3, e4, e5, cross) =
      p2_align_typed-Aligns 64 k off (off + len - 1) (omega arith) h g (omega arith) in
    ap (λ y. p2_cross off y (2 ^ k)) last
    ∙ p2_cross-typed off (2 ^ k) g (two_pow-lt k h) (off + len - 1) (omega arith)
    ∙ cross

-- What the macros should be on `uint64_t`, for the alignment `2 ^ k`.
abbrev pub Measures : ℕ → ℕ → ℕ → Type 0
Measures k x y =
    (p2_align x (2 ^ k) ≡ x / 2 ^ k * 2 ^ k)
    × (p2_phase x (2 ^ k) ≡ x % 2 ^ k)
    × (p2_nphase x (2 ^ k) ≡ (2 ^ k - x % 2 ^ k) % 2 ^ k)
    × (p2_roundup x (2 ^ k) ≡ ((x + (2 ^ k - 1)) / 2 ^ k * 2 ^ k) % 2 ^ 64)
    × (p2_cross x y (2 ^ k) ≡ not (x / 2 ^ k == y / 2 ^ k))
    × (is_p2_aligned x (2 ^ k) ≡ (x % 2 ^ k == 0))
    × (is_p2 x ≡ (x == 2 ^ highbit64 64 x))
    × (p2_samehighbit_typed 64 x y ≡ (highbit64 64 x == highbit64 64 y))
    × (2 ^ highbit64 64 x ≤ x)
    × (x < 2 ^ suc (highbit64 64 x))

-- On uint64_t, for numbers that are not 0 and an alignment to `2 ^ k`, the macros without a type are
-- quotients and remainders too, highbit64 is the position of the highest bit that is set, ISP2 says
-- whether no other bit is, and P2SAMEHIGHBIT whether the positions of two numbers are the same.
pub p2_align-Measures :
    (k x y : ℕ) → k < 64 → 1 ≤ x → x < 2 ^ 64 → 1 ≤ y → y < 2 ^ 64 → Measures k x y
p2_align-Measures k x y below pos h pos' g =
    let small : 2 ^ k < 2 ^ 64 = two_pow-lt k below in
    let (align, phase, nphase, roundup, e4, e5, cross) =
      p2_align_typed-Aligns 64 k x y (omega arith) below h g in
    let (lt, lo, hi) = highbit64_bounds x pos h in
    (
      p2_align-typed x (2 ^ k) h small ∙ align,
      p2_phase-typed x (2 ^ k) h small ∙ phase,
      p2_nphase-typed x (2 ^ k) h small ∙ nphase,
      p2_roundup-typed x (2 ^ k) h small ∙ roundup,
      p2_cross-typed x (2 ^ k) h small y g ∙ cross,
      is_p2_aligned-eq k x below h,
      is_p2-eq x pos h,
      p2_samehighbit_typed-eq x y pos h pos' g,
      lo,
      hi,
    )
