-- ===== src/Cvec/Laws.antt =====
-- What the searches of include/sys/cvec.h find, and what the program's search for a command does.
use eoblock.Admin.Registry.{get_elem?-lt}
use eoblock.Cvec.{
  CVec, c_vec_last, c_vec_is_end, c_vec_at, c_vec_from, cut_at, find_from, c_vec_find_by_str_field,
  c_vec_truncate_by_int,
}
use eoblock.Cmd.{Text}
use eoblock.Cmd.Commands.{Help}
use eoblock.Cmd.Main.{find_command}
use eoblock.Sysfs.Words.{same_text}
use eoblock.Prelude.{
  ℕ, zero, suc, ◌+◌, ◌≤◌, ◌<◌, ◌^◌, ◌≡◌, refl, sym, ap, ◌∙◌, arith, Bool, false, Bool-cases, inl,
  inr, Option, none, some, List, [], ◌∷◌, length, take, drop, length-take, take_all, get_elem?,
  ◌==◌, if◌then◌else◌,
}

module _ {ℓ} {A : Type ℓ} where
  -- The index of the first element that passes the test, or the length.
  abbrev position : (A → Bool) → List A → ℕ
  position test [] = 0
  position test (x ∷ xs) = let rest = suc (position test xs) in if test x then 0 else rest

  -- The elements before it.
  abbrev pub take_until : (A → Bool) → List A → List A
  take_until test [] = []
  take_until test (x ∷ xs) = let rest = x ∷ take_until test xs in if test x then [] else rest

  -- The elements that a view shows.
  abbrev pub elements : List A → CVec → List A
  elements memory v = take v.count (drop v.p memory)

  drop_at :
      (xs : List A) (i : ℕ) (x : A) → get_elem? xs i ≡ some x → drop i xs ≡ x ∷ drop (suc i) xs
  drop_at [] i x e = absurd (ground arith)
  drop_at (y ∷ xs) zero x e = cc
  drop_at (y ∷ xs) (suc i) x e = drop_at xs i x e

  module _ (memory : List A) (test : A → Bool) (v : CVec)
      (inside : c_vec_last v ≤ length memory) where
    abbrev found_at : ℕ → ℕ → ℕ
    found_at n i = v.p + i + position test (take n (drop (v.p + i) memory))

    find_from-step :
        (n i : ℕ) (x : A)
        → c_vec_at memory v i ≡ some x
        → find_from memory test v n (i + 1) ≡ some (found_at n (i + 1))
        → find_from memory test v (suc n) i ≡ some (found_at (suc n) i)
    unfolding find_from
    find_from-step n i x found rest =
        let next : v.p + (i + 1) ≡ suc (v.p + i) = omega arith in
        rw (found, rest)
          (rw (drop_at memory (v.p + i) x found) (elim (Bool-cases (test x)) [
            | inl stops ↦ rw stops (ap some (omega arith))
            | inr goes ↦ rw goes (rw next (ap some (omega arith)))
          ]))

    find_from-position :
        (n i : ℕ) → i + n ≡ v.count → find_from memory test v n i ≡ some (found_at n i)
    find_from-position zero i e = unfold find_from in ap some (omega arith)
    find_from-position (suc n) i e =
        let (x, found) = get_elem?-lt memory (v.p + i) (omega arith) in
        find_from-step n i x found (find_from-position n (i + 1) (omega arith))

    -- The searches of the macros stay in the array.
    find-position :
        find_from memory test v v.count 0 ≡ some (v.p + position test (elements memory v))
    find-position =
        find_from-position v.count 0 (omega arith)
        ∙ ap (λ m. some (m + position test (take v.count (drop m memory)))) (omega arith)

  position-le : (test : A → Bool) (xs : List A) → position test xs ≤ length xs
  position-le test [] = omega arith
  position-le test (x ∷ xs) = let h = position-le test xs in ground arith

  take-position : (test : A → Bool) (xs : List A) → take (position test xs) xs ≡ take_until test xs
  take-position test [] = refl
  take-position test (x ∷ xs) = elim (Bool-cases (test x)) [
    | inl stops ↦ rw stops refl
    | inr goes ↦ rw goes (ap (λ ys. x ∷ ys) (take-position test xs))
  ]

  take-take : (n m : ℕ) (xs : List A) → n ≤ m → take n (take m xs) ≡ take n xs
  take-take zero m xs h = refl
  take-take (suc n) zero xs h = absurd (omega arith)
  take-take (suc n) (suc m) [] h = refl
  take-take (suc n) (suc m) (x ∷ xs) h = ap (λ ys. x ∷ ys) (take-take n m xs (omega arith))

  -- c_vec_truncate_by_int leaves the elements before the first one with the value. The view lies in
  -- the array.
  c_vec_truncate_by_int_lem :
      (memory : List A) (v : CVec) (val : ℕ) (field : A → ℕ)
      → c_vec_last v ≤ length memory
      → c_vec_last v < 2 ^ 64
      → (v' : CVec) × (c_vec_truncate_by_int memory v val field ≡ some v')
        × (v'.p ≡ v.p)
        × (elements memory v' ≡ take_until (λ x. field x == val) (elements memory v))
  unfolding c_vec_truncate_by_int
  c_vec_truncate_by_int_lem memory v val field inside small =
      let test : A → Bool = λ x. field x == val in
      let n : ℕ = position test (elements memory v) in
      let fits : n ≤ v.count =
        omega
          (arith, position-le test (elements memory v), length-take v.count (drop v.p memory)) in
      (
        record { p = v.p; count = n },
        ap (cut_at memory v) (find-position memory test v inside)
            ∙ ap (λ m. some (record { p = v.p; count = m })) (omega (arith, fits, small)),
        refl,
        sym (take-take n v.count (drop v.p memory) fits) ∙ take-position test (elements memory v),
      )

abbrev usage_of : Option (Text × Help) → Option (Option Help)
usage_of none = none
usage_of (some e) = some (some e.1)

-- What main makes of the iterator: nothing, where it is the end.
abbrev pub command_at : List (Text × Help) → Option ℕ → Option (Option Help)
command_at table none = none
command_at table (some iter) =
    if c_vec_is_end (c_vec_from table) iter
    then some none
    else usage_of (c_vec_at table (c_vec_from table) iter)

command_at-position :
    (name : Text) (table : List (Text × Help))
    → command_at table (some (position (λ e. same_text e.0 name) table))
      ≡ some (find_command name table)
unfolding find_command
command_at-position name [] = refl
command_at-position name ((n, h) ∷ rest) =
    let p : ℕ = position (λ (e : Text × Help). same_text e.0 name) rest in
    let first : (0 + suc (length rest) == 0) ≡ false = ground arith in
    let later : (0 + suc (length rest) == suc p) ≡ (0 + length rest == p) = ground arith in
    let index : 0 + suc p ≡ suc (0 + p) = omega arith in
    elim (Bool-cases (same_text n name)) [
      | inl found ↦ rw found (rw first refl)
      | inr other ↦ rw other (rw (later, index) (command_at-position name rest))
    ]

-- The search of main for a command by c_vec_find_by_str_field in a table reads no element outside it,
-- and finds the first command of that name, or the end where there is none.
pub find_command-c_vec :
    (name : Text) (table : List (Text × Help))
    → command_at table
        (c_vec_find_by_str_field table (c_vec_from table) name (λ (e : Text × Help). e.0))
      ≡ some (find_command name table)
find_command-c_vec name table =
    ap (command_at table) (
      find-position table (λ e. same_text e.0 name) (c_vec_from table) (omega arith)
      ∙ ap (λ es. some (0 + position (λ e. same_text e.0 name) es))
          (take_all (length table) table (omega arith))
      ∙ ap some (omega arith))
    ∙ command_at-position name table
