-- ===== src/Prelude/Bytes.antt =====
-- Bytes in memory: a number is laid out with its low byte first, as on x86.
use Prim.Native.Char.{code}
use Prim.Native.String.{String}
use Prim.Native.Nat.{ℕ, zero, suc, ◌+◌, ◌*◌, ◌/◌, ◌%◌, ◌^◌, ◌<◌}
use mathlib.Core.Path.{◌≡◌, refl, ap}
use mathlib.Core.List.{List, [], ◌∷◌, ◌++◌}
use native.Mathlib.Omega.{arith}
use native.Mathlib.Nat.{pow-suc}
use eoblock.Prelude.Lists.{length, replicate}

-- The `n` bytes of `x`.
abbrev pub le_bytes : ℕ → ℕ → List ℕ
le_bytes zero x = []
le_bytes (suc n) x = x % 256 ∷ le_bytes n (x / 256)

-- The number that the bytes stand for.
abbrev pub le_value : List ℕ → ℕ
le_value [] = 0
le_value (b ∷ bs) = b + 256 * le_value bs

-- Every element is a byte.
abbrev pub AllBytes : List ℕ → Type 0
AllBytes [] = Unit
AllBytes (b ∷ bs) = (b < 256) × AllBytes bs

pub length-le_bytes : (n x : ℕ) → length (le_bytes n x) ≡ n
length-le_bytes zero x = refl
length-le_bytes (suc n) x = ap suc (length-le_bytes n (x / 256))

pub le_value-le_bytes : (n x : ℕ) → x < 256 ^ n → le_value (le_bytes n x) ≡ x
le_value-le_bytes zero x h = omega arith
le_value-le_bytes (suc n) x h =
    omega (arith, le_value-le_bytes n (x / 256) (omega (arith, pow-suc 256 n)))

pub le_bytes-AllBytes : (n x : ℕ) → AllBytes (le_bytes n x)
le_bytes-AllBytes zero x = tt
le_bytes-AllBytes (suc n) x = (omega arith, le_bytes-AllBytes n (x / 256))

pub le_value-lt : (bs : List ℕ) → AllBytes bs → le_value bs < 256 ^ length bs
le_value-lt [] h = omega arith
le_value-lt (b ∷ bs) h = omega (arith, pow-suc 256 (length bs), le_value-lt bs h.1)

pub le_bytes-le_value : (bs : List ℕ) → AllBytes bs → le_bytes (length bs) (le_value bs) ≡ bs
le_bytes-le_value [] h = refl
le_bytes-le_value (b ∷ bs) h =
    let e : (b + 256 * le_value bs) / 256 ≡ le_value bs = omega arith in
    let f : (b + 256 * le_value bs) % 256 ≡ b = omega arith in
    rw (f, e) (ap (λ r. b ∷ r) (le_bytes-le_value bs h.1))

pub AllBytes-append : (xs ys : List ℕ) → AllBytes xs → AllBytes ys → AllBytes (xs ++ ys)
AllBytes-append [] ys h k = k
AllBytes-append (x ∷ xs) ys h k = (h.0, AllBytes-append xs ys h.1 k)

pub AllBytes-zeros : (n : ℕ) → AllBytes (replicate n 0)
AllBytes-zeros zero = tt
AllBytes-zeros (suc n) = (omega arith, AllBytes-zeros n)

-- A number before other bytes.
pub AllBytes-le_bytes-append :
    (n x : ℕ) (rest : List ℕ) → AllBytes rest → AllBytes (le_bytes n x ++ rest)
AllBytes-le_bytes-append n x rest h = AllBytes-append (le_bytes n x) rest (le_bytes-AllBytes n x) h

-- The characters of an ASCII text.
abbrev pub codes : String → List ℕ
codes String.[] = []
codes (String.◌∷◌ c s) = code c ∷ codes s
