-- ===== src/Sysfs/Parse.antt =====
-- The commands written to `mgmt` as text: what `echo "add <name> dev=<path>"` and `echo "del <name>"`
-- come to, and that the parameters are read in finitely many steps.
use eoblock.Prelude.{
  ℕ, zero, suc, ◌<◌, ◌≤◌, ◌≡◌, ◌≢◌, refl, sym, ◌∙◌, arith, Bool, true, false, ◌||◌, Option, none,
  some, List, [], ◌∷◌, ◌++◌, length, inl, inr, Option-cases, ◌==◌, eq→==,
}
use eoblock.Sysfs.Words.{
  Ctype, newline, space, equals, is_delimiter, same_word, eoblock_get_next_token_str,
}
use eoblock.Sysfs.{State, Kernel, eoblock_add_iface_kobj, eoblock_remove_iface}
use eoblock.Sysfs.Mgmt.{
  param_value, read_params, exhausted, wrong, device, eoblock_add_iface, add_word, del_word,
  eoblock_iface_mgmt_cb,
}
use eoblock.Sysfs.Cutting.{
  IsAscii, IsWord, Nonempty, IsToken, get_next_lexem-word, get_next_lexem-last, get_next_lexem-end,
  get_next_token_str-token, get_next_token_str-end, some≢none, token-cases,
}

device≢exhausted : {o : Option (List ℕ)} → device o ≢ exhausted
device≢exhausted h = ground arith

wrong≢exhausted : wrong ≢ exhausted
wrong≢exhausted h = ground arith

module _ (c : Ctype) where
  -- The loop over the parameters of `add` ends: it takes no more rounds than the text has
  -- characters, and one.
  pub read_params-enough :
      (n : ℕ) (params : List ℕ) (dev_name : Option (List ℕ))
      → length params < n
      → read_params c n params dev_name ≢ exhausted
  unfolding read_params
  read_params-enough zero params dev_name h = absurd (omega arith)
  read_params-enough (suc n) params dev_name h =
      elim (Option-cases (eoblock_get_next_token_str params).0) [
        | inl ended ↦ rw ended device≢exhausted
        | inr (t, e) ↦ rw e (elim (Option-cases (param_value c t)) [
          | inl invalid ↦ rw invalid wrong≢exhausted
          | inr (v, f) ↦ rw f (
              read_params-enough n (eoblock_get_next_token_str params).1 (some v)
                (elim (token-cases params) [
                  | inl ended ↦ absurd (some≢none (sym e ∙ ended))
                  | inr less ↦ omega (arith, less)
                ]))
        ])
      ]

  module _ (g : IsAscii c) where
    letter : (x : ℕ) → 97 ≤ x → x ≤ 122 → is_delimiter c x ≡ false
    letter x h k = let e : (x == equals) ≡ false = ground arith in rw (g.letter x h k, e) refl

    space-delimits : is_delimiter c space ≡ true
    space-delimits = rw g.space refl

    newline-delimits : is_delimiter c newline ≡ true
    newline-delimits = rw g.newline refl

    three-letters :
        (x y z : ℕ)
        → 97 ≤ x
        → x ≤ 122
        → 97 ≤ y
        → y ≤ 122
        → 97 ≤ z
        → z ≤ 122
        → IsWord c (x ∷ y ∷ z ∷ [])
    unfolding IsWord
    three-letters x y z a b d e f h = (letter x a b, (letter y d e, (letter z f h, tt)))

    add-IsWord : IsWord c add_word
    add-IsWord =
        three-letters 97 100 100 (omega arith) (omega arith) (omega arith) (omega arith)
          (omega arith) (omega arith)

    del-IsWord : IsWord c del_word
    del-IsWord =
        three-letters 100 101 108 (omega arith) (omega arith) (omega arith) (omega arith)
          (omega arith) (omega arith)

    abbrev dev_word : List ℕ
    dev_word = 100 ∷ 101 ∷ 118 ∷ []

    dev-IsWord : IsWord c dev_word
    dev-IsWord =
        three-letters 100 101 118 (omega arith) (omega arith) (omega arith) (omega arith)
          (omega arith) (omega arith)

    or-true : (b : Bool) → (b || true) ≡ true
    or-true true = refl
    or-true false = refl

    same_word_refl : (w : List ℕ) → same_word c w w ≡ true
    same_word_refl [] = refl
    same_word_refl (x ∷ xs) = rw (eq→== (c.tolower x) (c.tolower x) refl) (same_word_refl xs)

    add≢del : same_word c add_word del_word ≡ false
    add≢del =
        rw (g.lower 97 (omega arith) (omega arith), g.lower 100 (omega arith) (omega arith)) refl

    -- The parameter `dev=<path>`.
    param_value-dev :
        (path : List ℕ)
        → Nonempty path
        → IsWord c path
        → param_value c (dev_word ++ (equals ∷ path)) ≡ some path
    unfolding param_value Nonempty
    param_value-dev [] n h = absurd n
    param_value-dev (x ∷ path) n h =
        rw
          (get_next_lexem-word c dev_word equals (x ∷ path) tt dev-IsWord
            (or-true (c.isspace equals)))
          (rw (get_next_lexem-last c (x ∷ path) tt h)
            (rw (get_next_lexem-end c) (rw (same_word_refl dev_word) refl)))

    -- The text of the parameters of `add`.
    abbrev pub params_text : List ℕ → List ℕ
    params_text path = dev_word ++ (equals ∷ (path ++ (newline ∷ [])))

    dev-IsToken : (path : List ℕ) → IsToken path → IsToken (dev_word ++ (equals ∷ path))
    unfolding IsToken
    dev-IsToken path h = (refl, (refl, (refl, (refl, h))))

    read_params-one :
        (m : ℕ) (path : List ℕ)
        → Nonempty path
        → IsWord c path
        → IsToken path
        → read_params c (suc (suc m)) (params_text path) none ≡ device (some path)
    unfolding read_params
    read_params-one m path ne h t =
        rw (get_next_token_str-token 100 (101 ∷ 118 ∷ equals ∷ path) [] (dev-IsToken path t))
          (rw (param_value-dev path ne h) (rw get_next_token_str-end refl))

    add_iface-params :
        (k : Kernel) (n path : List ℕ) (s : State)
        → Nonempty path
        → IsWord c path
        → IsToken path
        → eoblock_add_iface c k n (params_text path) s ≡ eoblock_add_iface_kobj k n path s
    unfolding eoblock_add_iface
    add_iface-params k n path s ne h t =
        let m : ℕ = length (101 ∷ 118 ∷ equals ∷ (path ++ (newline ∷ []))) in
        rw (read_params-one m path ne h t) refl

    -- `echo "add <name> dev=<path>"` adds the interface with the name and the path, where both are
    -- words and the path has no semicolon.
    pub eoblock_iface_mgmt_cb-add :
        (k : Kernel) (n path : List ℕ) (s : State)
        → Nonempty n
        → IsWord c n
        → Nonempty path
        → IsWord c path
        → IsToken path
        → eoblock_iface_mgmt_cb c k (add_word ++ (space ∷ (n ++ (space ∷ params_text path)))) s
          ≡ eoblock_add_iface_kobj k n path s
    unfolding eoblock_iface_mgmt_cb Nonempty
    eoblock_iface_mgmt_cb-add k [] path s nn h ne h' t = absurd nn
    eoblock_iface_mgmt_cb-add k (x ∷ n) path s nn h ne h' t =
        rw
          (get_next_lexem-word c add_word space ((x ∷ n) ++ (space ∷ params_text path)) tt
            add-IsWord space-delimits)
          (rw (get_next_lexem-word c (x ∷ n) space (params_text path) tt h space-delimits)
            (rw (same_word_refl add_word) (add_iface-params k (x ∷ n) path s ne h' t)))

    -- `echo "del <name>"` removes the interface with the name, where that is a word.
    eoblock_iface_mgmt_cb-del :
        (k : Kernel) (n : List ℕ) (s : State)
        → Nonempty n
        → IsWord c n
        → eoblock_iface_mgmt_cb c k (del_word ++ (space ∷ (n ++ (newline ∷ [])))) s
          ≡ eoblock_remove_iface n s
    unfolding eoblock_iface_mgmt_cb Nonempty
    eoblock_iface_mgmt_cb-del k [] s nn h = absurd nn
    eoblock_iface_mgmt_cb-del k (x ∷ n) s nn h =
        rw
          (get_next_lexem-word c del_word space ((x ∷ n) ++ (newline ∷ [])) tt del-IsWord
            space-delimits)
          (rw (get_next_lexem-word c (x ∷ n) newline [] tt h newline-delimits)
            (rw (get_next_lexem-end c) (rw add≢del (rw (same_word_refl del_word) refl))))
