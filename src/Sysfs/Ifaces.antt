-- ===== src/Sysfs/Ifaces.antt =====
-- The list of interfaces against a dictionary of them by name.
use eoblock.Prelude.{
  ℕ, ◌≡◌, refl, sym, ap, ap₂, ◌∙◌, subst, arith, true, false, Option, none, some, List, [], ◌∷◌,
  ◌++◌, inl, inr, eq→==, ==_iff, Bool-cases, ◌==◌, if◌then◌else◌,
}
use eoblock.Sysfs.Words.{same_text}
use eoblock.Sysfs.{
  Iface, Entry, live, without, list_add_tail, Search, absent, found, passed, search_iface, list_del,
}

-- The list with every entry an interface.
abbrev pub lives : List Iface → List Entry
lives [] = []
lives (i ∷ is) = live i ∷ lives is

abbrev pub names : List Iface → List (List ℕ)
names [] = []
names (i ∷ is) = i.name ∷ names is

-- The dictionary's operations.
abbrev pub find : List ℕ → List Iface → Option Iface
find n [] = none
find n (i ∷ is) = let rest = find n is in if same_text i.name n then some i else rest

abbrev pub erase : List ℕ → List Iface → List Iface
erase n [] = []
erase n (i ∷ is) = let rest = erase n is in if same_text i.name n then is else i ∷ rest

unfoldable pub NotIn : List ℕ → List (List ℕ) → Type 0
NotIn n [] = Unit
NotIn n (x ∷ xs) = (same_text x n ≡ false) × NotIn n xs

unfoldable pub Distinct : List (List ℕ) → Type 0
Distinct [] = Unit
Distinct (x ∷ xs) = NotIn x xs × Distinct xs

pub list_add_tail-lives :
    (e : Entry) (is : List Iface) → list_add_tail e (lives is) ≡ some (lives is ++ (e ∷ []))
list_add_tail-lives e [] = refl
list_add_tail-lives e (i ∷ []) = refl
list_add_tail-lives e (i ∷ j ∷ is) = rw (list_add_tail-lives e (j ∷ is)) refl

pub lives-append : (is js : List Iface) → lives (is ++ js) ≡ lives is ++ lives js
lives-append [] js = refl
lives-append (i ∷ is) js = ap (λ r. live i ∷ r) (lives-append is js)

pub names-append : (is js : List Iface) → names (is ++ js) ≡ names is ++ names js
names-append [] js = refl
names-append (i ∷ is) js = ap (λ r. i.name ∷ r) (names-append is js)

pub same_text_refl : (a : List ℕ) → same_text a a ≡ true
same_text_refl [] = refl
same_text_refl (x ∷ xs) = rw (eq→== x x refl) (same_text_refl xs)

list_del-lives : (i : Iface) (is : List Iface) → list_del i (lives is) ≡ found i (lives is)
list_del-lives i [] = refl
list_del-lives i (j ∷ is) = refl

abbrev searched : Option Iface → List Iface → Search
searched none is = absent
searched (some i) is = found i (lives is)

passed-searched :
    (i : Iface) (o : Option Iface) (is : List Iface)
    → passed (live i) (searched o is) ≡ searched o (i ∷ is)
passed-searched i none is = refl
passed-searched i (some j) is = refl

pub search_iface-lives :
    (n : List ℕ) (is : List Iface) → search_iface n (lives is) ≡ searched (find n is) (erase n is)
search_iface-lives n [] = refl
search_iface-lives n (i ∷ is) = elim (Bool-cases (same_text i.name n)) [
  | inl same ↦ rw same (list_del-lives i is)
  | inr other ↦ rw other (rw (search_iface-lives n is) (passed-searched i (find n is) (erase n is)))
]

pub without-names : (n : List ℕ) (is : List Iface) → without n (names is) ≡ names (erase n is)
without-names n [] = refl
without-names n (i ∷ is) = elim (Bool-cases (same_text i.name n)) [
  | inl same ↦ rw same refl
  | inr other ↦ rw other (ap (λ r. i.name ∷ r) (without-names n is))
]

erase-NotIn : (m n : List ℕ) (is : List Iface) → NotIn m (names is) → NotIn m (names (erase n is))
unfolding NotIn
erase-NotIn m n [] h = tt
erase-NotIn m n (i ∷ is) (h, hs) = elim (Bool-cases (same_text i.name n)) [
  | inl same ↦ rw same hs
  | inr other ↦ rw other (h, erase-NotIn m n is hs)
]

pub erase-Distinct :
    (n : List ℕ) (is : List Iface) → Distinct (names is) → Distinct (names (erase n is))
unfolding Distinct
erase-Distinct n [] h = tt
erase-Distinct n (i ∷ is) (h, hs) = elim (Bool-cases (same_text i.name n)) [
  | inl same ↦ rw same hs
  | inr other ↦ rw other (erase-NotIn i.name n is h, erase-Distinct n is hs)
]

false≢true : ¬ (false ≡ true)
false≢true h = ground arith

same_text-eq : (a b : List ℕ) → same_text a b ≡ true → a ≡ b
same_text-eq [] [] h = refl
same_text-eq [] (y ∷ ys) h = absurd (ground arith)
same_text-eq (x ∷ xs) [] h = absurd (ground arith)
same_text-eq (x ∷ xs) (y ∷ ys) h = elim (Bool-cases (x == y)) [
  | inl e ↦
      ap₂ (λ u us. u ∷ us) ((==_iff x y).0 e)
        (same_text-eq xs ys (subst (λ b. (if b then same_text xs ys else false) ≡ true) e h))
  | inr e ↦ absurd (false≢true (subst (λ b. (if b then same_text xs ys else false) ≡ true) e h))
]

same_text-sym : (a b : List ℕ) → same_text a b ≡ false → same_text b a ≡ false
same_text-sym a b h = elim (Bool-cases (same_text b a)) [
  | inl e ↦ absurd (false≢true (sym h ∙ ap (same_text a) (same_text-eq b a e) ∙ same_text_refl a))
  | inr e ↦ e
]

snoc-NotIn :
    (m : List ℕ) (i : Iface) (is : List Iface)
    → NotIn m (names is)
    → same_text i.name m ≡ false
    → NotIn m (names (is ++ (i ∷ [])))
unfolding NotIn
snoc-NotIn m i [] h e = (e, tt)
snoc-NotIn m i (j ∷ is) (h, hs) e = (h, snoc-NotIn m i is hs e)

pub snoc-Distinct :
    (i : Iface) (is : List Iface)
    → Distinct (names is)
    → NotIn i.name (names is)
    → Distinct (names (is ++ (i ∷ [])))
unfolding Distinct NotIn
snoc-Distinct i [] h e = (tt, tt)
snoc-Distinct i (j ∷ is) (h, hs) (e, es) =
    (snoc-NotIn j.name i is h (same_text-sym j.name i.name e), snoc-Distinct i is hs es)

find-NotIn : (n : List ℕ) (is : List Iface) → NotIn n (names is) → find n is ≡ none
unfolding NotIn
find-NotIn n [] h = refl
find-NotIn n (i ∷ is) (h, hs) = rw h (find-NotIn n is hs)

pub find-snoc :
    (i : Iface) (is : List Iface) → NotIn i.name (names is) → find i.name (is ++ (i ∷ [])) ≡ some i
unfolding NotIn
find-snoc i [] h = rw (same_text_refl i.name) refl
find-snoc i (j ∷ is) (h, hs) = rw h (find-snoc i is hs)

pub erase-snoc :
    (i : Iface) (is : List Iface) → NotIn i.name (names is) → erase i.name (is ++ (i ∷ [])) ≡ is
unfolding NotIn
erase-snoc i [] h = rw (same_text_refl i.name) refl
erase-snoc i (j ∷ is) (h, hs) = rw h (ap (λ r. j ∷ r) (erase-snoc i is hs))

abbrev name_of : Option Iface → List ℕ
name_of none = []
name_of (some i) = i.name

pub find-name : (n : List ℕ) (i : Iface) (is : List Iface) → find n is ≡ some i → i.name ≡ n
find-name n i [] h = absurd (ground arith)
find-name n i (j ∷ is) h = elim (Bool-cases (same_text j.name n)) [
  | inl same ↦
      let e : some j ≡ some i = subst (λ b. (if b then some j else find n is) ≡ some i) same h in
      sym (ap name_of e) ∙ same_text-eq j.name n same
  | inr other ↦ find-name n i is (subst (λ b. (if b then some j else find n is) ≡ some i) other h)
]

some≢none : {i : Iface} → ¬ (some i ≡ none)
some≢none h = ground arith

erase-none : (n : List ℕ) (is : List Iface) → find n is ≡ none → erase n is ≡ is
erase-none n [] h = refl
erase-none n (j ∷ is) h = elim (Bool-cases (same_text j.name n)) [
  | inl same ↦ absurd (some≢none (subst (λ b. (if b then some j else find n is) ≡ none) same h))
  | inr other ↦ rw other (
      ap (λ r. j ∷ r)
        (erase-none n is (subst (λ b. (if b then some j else find n is) ≡ none) other h)))
]
