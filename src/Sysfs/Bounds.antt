-- ===== src/Sysfs/Bounds.antt =====
-- The words, tokens and values that the text of a command is cut into are no longer than the text.
use eoblock.Prelude.{
  ℕ, zero, suc, ◌≤◌, arith, not, Option, none, some, List, [], ◌∷◌, length, inl, inr, Bool-cases,
  Option-cases, if-elim, subst, ◌==◌,
}
use eoblock.Sysfs.Words.{
  Ctype, is_delimiter, skip_delimiters, cut_word, eoblock_get_next_lexem, ends_token, cut_token,
  eoblock_get_next_token_str, same_word, token_of,
}
use eoblock.Sysfs.Mgmt.{Params, device, param_value, read_params, nonempty, rest_of, c_string}

-- The length of a string that may be NULL.
abbrev length_of : Option (List ℕ) → ℕ
length_of none = 0
length_of (some s) = length s

module _ (c : Ctype) where
  skip_delimiters-le : (s : List ℕ) → length (skip_delimiters c s) ≤ length s
  skip_delimiters-le [] = omega arith
  skip_delimiters-le (x ∷ xs) = elim (Bool-cases (is_delimiter c x)) [
    | inl e ↦ rw e (omega (arith, skip_delimiters-le xs))
    | inr e ↦ rw e (omega arith)
  ]

  cut_word-le :
      (s : List ℕ) → (length (cut_word c s).0 ≤ length s) × (length (cut_word c s).1 ≤ length s)
  cut_word-le [] = omega arith
  cut_word-le (x ∷ xs) = elim (Bool-cases (is_delimiter c x)) [
    | inl e ↦ rw e (omega arith)
    | inr e ↦ let h = cut_word-le xs in rw e (omega arith)
  ]

  -- The word and what is left are no longer than the text.
  pub get_next_lexem-le :
      (o : Option (List ℕ))
      → (length (eoblock_get_next_lexem c o).0 ≤ length_of o)
        × (length_of (eoblock_get_next_lexem c o).1 ≤ length_of o)
  unfolding eoblock_get_next_lexem
  get_next_lexem-le none = omega arith
  get_next_lexem-le (some s) =
      let h = cut_word-le (skip_delimiters c s) in omega (arith, skip_delimiters-le s)

  cut_token-le :
      (s : List ℕ) → (length (cut_token s).0 ≤ length s) × (length (cut_token s).1 ≤ length s)
  cut_token-le [] = omega arith
  cut_token-le (x ∷ xs) = elim (Bool-cases (ends_token x)) [
    | inl e ↦ rw e (omega arith)
    | inr e ↦ let h = cut_token-le xs in rw e (omega arith)
  ]

  token_of-le :
      (s : List ℕ) (p : List ℕ × List ℕ)
      → length p.0 ≤ length s
      → length p.1 ≤ length s
      → (length_of (token_of s p).0 ≤ length s) × (length (token_of s p).1 ≤ length s)
  token_of-le s ([], rest) h k = omega arith
  token_of-le s (x ∷ t, rest) h k = (h, k)

  get_next_token_str-le :
      (s : List ℕ)
      → (length_of (eoblock_get_next_token_str s).0 ≤ length s)
        × (length (eoblock_get_next_token_str s).1 ≤ length s)
  unfolding eoblock_get_next_token_str
  get_next_token_str-le s = let h = cut_token-le s in token_of-le s (cut_token s) h.0 h.1

  param_value-le : (t : List ℕ) → length_of (param_value c t) ≤ length t
  unfolding param_value
  param_value-le t =
      let P : Option (List ℕ) → Type 0 = λ o. length_of o ≤ length t in
      let a = get_next_lexem-le (some t) in
      let b = get_next_lexem-le (eoblock_get_next_lexem c (some t)).1 in
      let p : List ℕ = (eoblock_get_next_lexem c (some t)).0 in
      let rest : Option (List ℕ) = (eoblock_get_next_lexem c (some t)).1 in
      let pp : List ℕ = (eoblock_get_next_lexem c rest).0 in
      let rest' : Option (List ℕ) = (eoblock_get_next_lexem c rest).1 in
      if-elim P (not (nonempty p)) (λ _. omega arith)
        (λ _.
          if-elim P (not (nonempty pp)) (λ _. omega arith)
            (λ _.
              if-elim P (nonempty (eoblock_get_next_lexem c rest').0) (λ _. omega arith)
                (λ _.
                  if-elim P (same_word c (100 ∷ 101 ∷ 118 ∷ []) p) (λ _. omega arith)
                    (λ _. omega arith))))

  -- A device that the parameters name is no longer than they are.
  abbrev pub Bounded : ℕ → Params → Type 0
  Bounded n (device o) = length_of o ≤ n
  Bounded n _ = Unit

  pub read_params-le :
      (n b : ℕ) (params : List ℕ) (dev_name : Option (List ℕ))
      → length params ≤ b
      → length_of dev_name ≤ b
      → Bounded b (read_params c n params dev_name)
  unfolding read_params
  read_params-le zero b params dev_name h k = tt
  read_params-le (suc n) b params dev_name h k =
      let l = get_next_token_str-le params in
      elim (Option-cases (eoblock_get_next_token_str params).0) [
        | inl ended ↦ rw ended k
        | inr (t, e) ↦
            let short : length t ≤ length params = subst (λ o. length_of o ≤ length params) e l.0 in
            rw e (elim (Option-cases (param_value c t)) [
              | inl invalid ↦ rw invalid tt
              | inr (v, f) ↦
                  let small : length v ≤ length t =
                    subst (λ o. length_of o ≤ length t) f (param_value-le t) in
                  rw f (
                    read_params-le n b (eoblock_get_next_token_str params).1 (some v) (omega arith)
                      (omega arith))
            ])
      ]

  pub rest_of-le : (o : Option (List ℕ)) → length (rest_of c o) ≤ length_of o
  rest_of-le none = omega arith
  rest_of-le (some s) = omega arith

  pub c_string-le : (s : List ℕ) → length (c_string c s) ≤ length s
  c_string-le [] = omega arith
  c_string-le (x ∷ xs) = elim (Bool-cases (x == 0)) [
    | inl e ↦ rw e (omega arith)
    | inr e ↦ rw e (omega (arith, c_string-le xs))
  ]
