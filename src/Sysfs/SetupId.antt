-- ===== src/Sysfs/SetupId.antt =====
-- Reading `setup_id` and writing what was read.
use eoblock.Prelude.{
  ℕ, ◌-◌, ◌%◌, ◌^◌, ◌≤◌, ◌<◌, ◌≡◌, refl, ap, arith, Bool, false, Bool-cases, inl, inr, List, [],
  ◌∷◌, ◌++◌, length, ltb, if◌then◌else◌, lt→ltb, ◌==◌,
}
use eoblock.System.{ok}
use eoblock.Sysfs.Words.{Ctype, newline}
use eoblock.Sysfs.{count, failed, einval, Kernel}
use eoblock.Sysfs.Mgmt.{c_string}
use eoblock.Sysfs.Decimal.{
  decimal, decimal_value, Digits, IsNumeral, decimal_value-decimal, IsNumeral-decimal,
  IsNumeral-Digits,
}
use eoblock.Sysfs.Attributes.{
  Parsed, number, refused, setup_id, Sysfs, eoblock_setup_id_show, eoblock_show,
  eoblock_setup_id_store, eoblock_store,
}

-- What the kernel's documentation says of kstrtoul with base 0: it reads the digits of a number that
-- fits an `unsigned long` and a newline, and refuses a minus.
pub record Reads (kstrtoul : List ℕ → Parsed) : Type 0 where
  pub digits :
      (ds : List ℕ)
      → IsNumeral ds
      → decimal_value 0 ds < 2 ^ 64
      → kstrtoul (ds ++ (newline ∷ [])) ≡ number (decimal_value 0 ds)
  pub minus : (text : List ℕ) → kstrtoul (45 ∷ text) ≡ refused einval

module _ (c : Ctype) where
  c_string-Digits :
      (ds : List ℕ) → Digits ds → c_string c (ds ++ (newline ∷ [])) ≡ ds ++ (newline ∷ [])
  c_string-Digits [] h = refl
  c_string-Digits (d ∷ ds) (h, hs) =
      let e : (d == 0) ≡ false = ground arith in rw e (ap (λ r. d ∷ r) (c_string-Digits ds hs))

  module _ {kstrtoul : List ℕ → Parsed} (g : Reads kstrtoul) (k : Kernel) (allocated : Bool)
      (s t : Sysfs) where
    abbrev id : ℕ
    id = s.eoblock_setup_id

    abbrev shown : List ℕ
    shown = eoblock_show setup_id s

    shown-positive : id < 2 ^ 31 → shown ≡ decimal 10 id ++ (newline ∷ [])
    unfolding eoblock_show eoblock_setup_id_show
    shown-positive h = rw (lt→ltb id (2 ^ 31) h) refl

    shown-negative : 2 ^ 31 ≤ id → shown ≡ 45 ∷ (decimal 10 (2 ^ 32 - id) ++ (newline ∷ []))
    unfolding eoblock_show eoblock_setup_id_show
    shown-negative h = let e : ltb id (2 ^ 31) ≡ false = ground arith in rw e refl

    store_text-positive :
        id < 2 ^ 31
        → eoblock_setup_id_store c kstrtoul shown t
          ≡ (ok (count (length shown)), record t { eoblock_setup_id = id })
    unfolding eoblock_setup_id_store
    store_text-positive h =
        let ds : List ℕ = decimal 10 id in
        let n : IsNumeral ds = IsNumeral-decimal 9 id (omega arith) in
        let v : decimal_value 0 ds ≡ id = decimal_value-decimal 10 id (omega arith) in
        let w : id % 2 ^ 32 ≡ id = omega arith in
        rw (shown-positive h) (
          rw (c_string-Digits ds (IsNumeral-Digits ds n))
            (rw (g.digits ds n (omega (arith, v))) (rw v (rw w refl))))

    store_text-negative :
        2 ^ 31 ≤ id
        → id < 2 ^ 32
        → eoblock_setup_id_store c kstrtoul shown t ≡ (ok (failed einval), t)
    unfolding eoblock_setup_id_store
    store_text-negative h k' = rw (shown-negative h) (rw (g.minus _) refl)

    -- What a read of `setup_id` shows, written to it, sets the number that was shown, where that is
    -- not negative; else it is refused with -EINVAL and nothing changes. The number is the bit
    -- pattern of an `int`, and kstrtoul reads digits and refuses a minus as it is documented to.
    pub eoblock_store-show :
        id < 2 ^ 32
        → eoblock_store c kstrtoul setup_id k allocated shown t ≡ (
            if ltb id (2 ^ 31)
            then (ok (count (length shown)), record t { eoblock_setup_id = id })
            else (ok (failed einval), t))
    unfolding eoblock_store
    eoblock_store-show small = elim (Bool-cases (ltb id (2 ^ 31))) [
      | inl positive ↦ rw positive (store_text-positive (ground arith))
      | inr negative ↦ rw negative (store_text-negative (ground arith) small)
    ]
