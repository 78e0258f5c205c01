-- ===== src/Cmd/Laws.antt =====
-- cmd/iface0/iface.c: how the program ends, and what it writes of its usage.
use eoblock.Prelude.{
  ℕ, ◌≡◌, refl, ap, ◌∙◌, true, none, some, List, [], ◌∷◌, Bool-cases, inl, inr, ◌==◌, not,
  if◌then◌else◌,
}
use eoblock.Errors.{eob_badusage, is_eob_err}
use eoblock.System.{World, Outcome, ok, err, abort, fault, traced, retrace}
use eoblock.Chksum.{Zlib}
use eoblock.Cmd.{Text}
use eoblock.Cmd.Iface.{Os, succeeds}
use eoblock.Cmd.Main.{
  stdout, stderr, Status, exits, usage, is_help, find_command, iface_command_table, report_by,
  reported, main,
}

abbrev pub add_text : Text
add_text = 97 ∷ 100 ∷ 100 ∷ []

abbrev pub init_text : Text
init_text = 105 ∷ 110 ∷ 105 ∷ 116 ∷ []

abbrev pub dashed : ℕ → Text
dashed c = 45 ∷ c ∷ []

-- How the program should end after a call of the library.
abbrev pub status_of : Outcome (Unit {0}) × World → Outcome Status × World
status_of (ok _, w) = (ok (exits 0 none), w)
status_of (err e, w) =
    if not (is_eob_err e)
    then (abort, w)
    else if e == eob_badusage
    then (ok (exits 0 (some stdout)), w)
    else if e == 0
    then (ok (exits 0 none), w)
    else (ok (exits 1 (some stderr)), w)
status_of (abort, w) = (abort, w)
status_of (fault, w) = (fault, w)

by_code :
    (e : ℕ) (v : World)
    → report_by true e v ≡ (
        if e == eob_badusage
        then (ok (exits 0 (some stdout)), v)
        else if e == 0
        then (ok (exits 0 none), v)
        else (ok (exits 1 (some stderr)), v))
unfolding usage
by_code e v = elim (Bool-cases (e == eob_badusage)) [
  | inl listed ↦ rw listed refl
  | inr other ↦
      rw other
        (elim (Bool-cases (e == 0)) [ inl done ↦ rw done refl | inr failed ↦ rw failed refl ])
]

-- The code of the library passes through the functions between it and `main`.
pub reported-traced :
    (m : World → Outcome (Unit {0}) × World) (w : World)
    → reported (traced (succeeds (traced m)) w) ≡ status_of (m w)
reported-traced m w = ends (m w)
  where
    ends :
        (r : Outcome (Unit {0}) × World)
        → reported (retrace (succeeds (λ _. retrace r) w)) ≡ status_of r
    ends (ok u, v) = refl
    ends (err e, v) = elim (Bool-cases (is_eob_err e)) [
      | inl known ↦ rw known (rw known (ap (λ b. report_by b e v) known ∙ by_code e v))
      | inr unknown ↦ rw unknown refl
    ]
    ends (abort, v) = refl
    ends (fault, v) = refl

module _ (z : Zlib) (os : Os) where
  -- A request for help is answered on the standard error and with status 2, and a name that is no
  -- command on the standard output and with status 0. The request is no name of a command.
  main-usage :
      (name : Text) (rest : List Text) (w : World)
      → find_command name iface_command_table ≡ none
      → main z os (name ∷ rest) w
        ≡ (ok (if is_help name then exits 2 (some stderr) else exits 0 (some stdout)), w)
  unfolding main usage
  main-usage name rest w missing = elim (Bool-cases (is_help name)) [
    | inl h ↦ rw h refl
    | inr h ↦ rw (h, missing) refl
  ]
