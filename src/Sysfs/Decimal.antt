-- ===== src/Sysfs/Decimal.antt =====
-- The text of a number, as `sprintf` prints "%d" and as `kstrtoul` reads it.
use eoblock.Prelude.{
  ℕ, zero, suc, ◌+◌, ◌-◌, ◌*◌, ◌/◌, ◌%◌, ◌^◌, ◌≤◌, ◌<◌, ◌≡◌, refl, arith, Bool-cases, inl, inr,
  List, [], ◌∷◌, ◌++◌, ltb, if◌then◌else◌,
}

-- The digits of a number, of at most `n` of them.
unfoldable pub decimal : ℕ → ℕ → List ℕ
decimal zero x = []
decimal (suc n) x =
    let rest = decimal n (x / 10) in
    if ltb x 10 then (48 + x) ∷ [] else rest ++ ((48 + x % 10) ∷ [])

-- The number that digits stand for, behind the value of those before them.
unfoldable pub decimal_value : ℕ → List ℕ → ℕ
decimal_value acc [] = acc
decimal_value acc (d ∷ ds) = decimal_value (acc * 10 + (d - 48)) ds

abbrev pub IsDigit : ℕ → Type 0
IsDigit d = (48 ≤ d) × (d ≤ 57)

abbrev pub Digits : List ℕ → Type 0
Digits [] = Unit
Digits (d ∷ ds) = IsDigit d × Digits ds

-- Digits that do not start with a zero, unless that is the number.
unfoldable pub IsNumeral : List ℕ → Type 0
IsNumeral [] = ⊥
IsNumeral (d ∷ []) = IsDigit d
IsNumeral (d ∷ e ∷ ds) = (49 ≤ d) × (d ≤ 57) × Digits (e ∷ ds)

pub IsNumeral-Digits : (ds : List ℕ) → IsNumeral ds → Digits ds
unfolding IsNumeral
IsNumeral-Digits [] h = tt
IsNumeral-Digits (d ∷ []) h = (h, tt)
IsNumeral-Digits (d ∷ e ∷ ds) h = ((omega arith, h.1), h.2)

snoc-IsNumeral :
    (ds : List ℕ) (e : ℕ)
    → IsNumeral ds
    → 1 ≤ decimal_value 0 ds
    → IsDigit e
    → IsNumeral (ds ++ (e ∷ []))
unfolding IsNumeral decimal_value
snoc-IsNumeral [] e h p k = absurd h
snoc-IsNumeral (d ∷ []) e h p k = (omega arith, h.1, (k, tt))
snoc-IsNumeral (d ∷ c ∷ ds) e h p k = (h.0, h.1, digits (c ∷ ds) h.2)
  where
    digits : (xs : List ℕ) → Digits xs → Digits (xs ++ (e ∷ []))
    digits [] g = (k, tt)
    digits (x ∷ xs) g = (g.0, digits xs g.1)

decimal_value-snoc :
    (acc : ℕ) (ds : List ℕ) (e : ℕ)
    → decimal_value acc (ds ++ (e ∷ [])) ≡ decimal_value acc ds * 10 + (e - 48)
unfolding decimal_value
decimal_value-snoc acc [] e = refl
decimal_value-snoc acc (d ∷ ds) e = decimal_value-snoc (acc * 10 + (d - 48)) ds e

single : (x : ℕ) → x < 10 → IsNumeral ((48 + x) ∷ [])
unfolding IsNumeral
single x h = omega arith

-- The digits of a number stand for it.
pub decimal_value-decimal : (n x : ℕ) → x < 10 ^ n → decimal_value 0 (decimal n x) ≡ x
unfolding decimal decimal_value
decimal_value-decimal zero x h = omega arith
decimal_value-decimal (suc n) x h = elim (Bool-cases (ltb x 10)) [
  | inl one ↦ rw one (omega arith)
  | inr more ↦ rw more (
      rw (decimal_value-snoc 0 (decimal n (x / 10)) (48 + x % 10))
        (rw (decimal_value-decimal n (x / 10) (omega arith)) (omega arith)))
]

pub IsNumeral-decimal : (n x : ℕ) → x < 10 ^ suc n → IsNumeral (decimal (suc n) x)
unfolding decimal
IsNumeral-decimal zero x h = elim (Bool-cases (ltb x 10)) [
  | inl one ↦ rw one (single x h)
  | inr more ↦ absurd (ground arith)
]
IsNumeral-decimal (suc n) x h = elim (Bool-cases (ltb x 10)) [
  | inl one ↦ rw one (single x (ground arith))
  | inr more ↦
      let small : x / 10 < 10 ^ suc n = omega arith in
      let value : decimal_value 0 (decimal (suc n) (x / 10)) ≡ x / 10 =
        decimal_value-decimal (suc n) (x / 10) small in
      let big : 10 ≤ x = ground arith in
      rw more (
        snoc-IsNumeral (decimal (suc n) (x / 10)) (48 + x % 10) (IsNumeral-decimal n (x / 10) small)
          (omega (arith, value)) (omega arith, omega arith))
]
