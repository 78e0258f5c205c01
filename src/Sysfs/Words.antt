-- ===== src/Sysfs/Words.antt =====
-- modules/kmod/eoblock_sysfs.c: how the text written to `mgmt` is cut into words. A string is its
-- characters before the NUL.
use eoblock.Prelude.{
  ℕ, Bool, true, false, ◌||◌, Option, none, some, List, [], ◌∷◌, ◌==◌, if◌then◌else◌,
}

-- What the file uses of linux/ctype.h and linux/string.h.
pub record Ctype : Type 0 where
  pub isspace : ℕ → Bool
  pub tolower : ℕ → ℕ

abbrev pub newline : ℕ
newline = 10

abbrev semicolon : ℕ
semicolon = 59

abbrev pub space : ℕ
space = 32

abbrev pub equals : ℕ
equals = 61

module _ (c : Ctype) where
  -- The characters that lie between words.
  abbrev pub is_delimiter : ℕ → Bool
  is_delimiter x = c.isspace x || x == equals

  -- The first loop: `p` is moved over delimiters.
  abbrev pub skip_delimiters : List ℕ → List ℕ
  skip_delimiters [] = []
  skip_delimiters (x ∷ xs) = if is_delimiter x then skip_delimiters xs else x ∷ xs

  -- The second loop and the step over the delimiter: the word, and what `q` points to.
  abbrev pub cut_word : List ℕ → List ℕ × List ℕ
  cut_word [] = ([], [])
  cut_word (x ∷ xs) =
      let (w, rest) = cut_word xs in if is_delimiter x then ([], xs) else (x ∷ w, rest)

  -- `none` is NULL.
  unfoldable pub eoblock_get_next_lexem : Option (List ℕ) → List ℕ × Option (List ℕ)
  eoblock_get_next_lexem none = ([], none)
  eoblock_get_next_lexem (some s) = let (w, rest) = cut_word (skip_delimiters s) in (w, some rest)

  -- `!strcasecmp(a, b)`
  abbrev pub same_word : List ℕ → List ℕ → Bool
  same_word [] [] = true
  same_word [] (y ∷ ys) = false
  same_word (x ∷ xs) [] = false
  same_word (x ∷ xs) (y ∷ ys) =
      let rest = same_word xs ys in if c.tolower x == c.tolower y then rest else false

abbrev pub ends_token : ℕ → Bool
ends_token x = x == newline || x == semicolon

-- The token, and what is behind its delimiter.
abbrev pub cut_token : List ℕ → List ℕ × List ℕ
cut_token [] = ([], [])
cut_token (x ∷ xs) =
    let (t, rest) = cut_token xs in if ends_token x then ([], xs) else (x ∷ t, rest)

abbrev pub token_of : List ℕ → List ℕ × List ℕ → Option (List ℕ) × List ℕ
token_of s ([], rest) = (none, s)
token_of s (x ∷ t, rest) = (some (x ∷ t), rest)

-- An empty token is NULL and leaves the string where it is.
unfoldable pub eoblock_get_next_token_str : List ℕ → Option (List ℕ) × List ℕ
eoblock_get_next_token_str s = token_of s (cut_token s)

-- `strcmp(a, b) == 0`
abbrev pub same_text : List ℕ → List ℕ → Bool
same_text [] [] = true
same_text [] (y ∷ ys) = false
same_text (x ∷ xs) [] = false
same_text (x ∷ xs) (y ∷ ys) = let rest = same_text xs ys in if x == y then rest else false
