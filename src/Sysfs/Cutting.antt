-- ===== src/Sysfs/Cutting.antt =====
-- What the functions that cut the text of `mgmt` do to words and tokens.
use eoblock.Prelude.{
  ℕ, ◌<◌, ◌≤◌, ◌≡◌, refl, arith, true, false, none, some, List, [], ◌∷◌, ◌++◌, length, inl, inr,
  ◌⊎◌, Bool-cases,
}
use eoblock.Sysfs.Words.{
  Ctype, newline, space, is_delimiter, cut_word, eoblock_get_next_lexem, ends_token, cut_token,
  eoblock_get_next_token_str,
}

-- What linux/ctype.h says of the characters of the commands.
pub record IsAscii (c : Ctype) : Type 0 where
  pub space : c.isspace space ≡ true
  pub newline : c.isspace newline ≡ true
  pub letter : (x : ℕ) → 97 ≤ x → x ≤ 122 → c.isspace x ≡ false
  pub lower : (x : ℕ) → 97 ≤ x → x ≤ 122 → c.tolower x ≡ x

unfoldable pub IsWord : Ctype → List ℕ → Type 0
IsWord c [] = Unit
IsWord c (x ∷ xs) = (is_delimiter c x ≡ false) × IsWord c xs

unfoldable pub Nonempty : List ℕ → Type 0
Nonempty [] = ⊥
Nonempty (x ∷ xs) = Unit

unfoldable pub IsToken : List ℕ → Type 0
IsToken [] = Unit
IsToken (x ∷ xs) = (ends_token x ≡ false) × IsToken xs

module _ (c : Ctype) where
  cut_word-word :
      (w : List ℕ) (x : ℕ) (rest : List ℕ)
      → IsWord c w
      → is_delimiter c x ≡ true
      → cut_word c (w ++ (x ∷ rest)) ≡ (w, rest)
  unfolding IsWord
  cut_word-word [] x rest h e = rw e refl
  cut_word-word (y ∷ ys) x rest (h, hs) e = rw (h, cut_word-word ys x rest hs e) refl

  cut_word-last : (w : List ℕ) → IsWord c w → cut_word c w ≡ (w, [])
  unfolding IsWord
  cut_word-last [] h = refl
  cut_word-last (y ∷ ys) (h, hs) = rw (h, cut_word-last ys hs) refl

  -- A word is taken up to its delimiter, and the delimiter with it.
  pub get_next_lexem-word :
      (w : List ℕ) (x : ℕ) (rest : List ℕ)
      → Nonempty w
      → IsWord c w
      → is_delimiter c x ≡ true
      → eoblock_get_next_lexem c (some (w ++ (x ∷ rest))) ≡ (w, some rest)
  unfolding eoblock_get_next_lexem IsWord Nonempty
  get_next_lexem-word [] x rest n h e = absurd n
  get_next_lexem-word (y ∷ ys) x rest n (h, hs) e =
      rw h (rw (cut_word-word (y ∷ ys) x rest (h, hs) e) refl)

  pub get_next_lexem-last :
      (w : List ℕ) → Nonempty w → IsWord c w → eoblock_get_next_lexem c (some w) ≡ (w, some [])
  unfolding eoblock_get_next_lexem IsWord Nonempty
  get_next_lexem-last [] n h = absurd n
  get_next_lexem-last (y ∷ ys) n (h, hs) = rw h (rw (cut_word-last (y ∷ ys) (h, hs)) refl)

  pub get_next_lexem-end : eoblock_get_next_lexem c (some []) ≡ ([], some [])
  unfolding eoblock_get_next_lexem
  get_next_lexem-end = refl

cut_token-token :
    (t : List ℕ) (rest : List ℕ) → IsToken t → cut_token (t ++ (newline ∷ rest)) ≡ (t, rest)
unfolding IsToken
cut_token-token [] rest h = refl
cut_token-token (y ∷ ys) rest (h, hs) = rw (h, cut_token-token ys rest hs) refl

length-cut_token : (s : List ℕ) → length (cut_token s).1 ≤ length s
length-cut_token [] = omega arith
length-cut_token (x ∷ xs) = elim (Bool-cases (ends_token x)) [
  | inl e ↦ rw e (omega arith)
  | inr e ↦ rw e (omega (arith, length-cut_token xs))
]

pub get_next_token_str-token :
    (y : ℕ) (t : List ℕ) (rest : List ℕ)
    → IsToken (y ∷ t)
    → eoblock_get_next_token_str (y ∷ (t ++ (newline ∷ rest))) ≡ (some (y ∷ t), rest)
unfolding eoblock_get_next_token_str
get_next_token_str-token y t rest h = rw (cut_token-token (y ∷ t) rest h) refl

pub get_next_token_str-end : eoblock_get_next_token_str [] ≡ (none, [])
unfolding eoblock_get_next_token_str
get_next_token_str-end = refl

pub some≢none : {t : List ℕ} → ¬ (some t ≡ none)
some≢none h = ground arith

-- A token takes at least one character.
pub token-cases :
    (s : List ℕ)
    → ((eoblock_get_next_token_str s).0 ≡ none)
      ⊎ (length (eoblock_get_next_token_str s).1 < length s)
unfolding eoblock_get_next_token_str
token-cases [] = inl refl
token-cases (x ∷ xs) = elim (Bool-cases (ends_token x)) [
  | inl e ↦ rw e (inl refl)
  | inr e ↦ rw e (inr (omega (arith, length-cut_token xs)))
]
