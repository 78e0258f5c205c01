-- ===== src/Cmd/Main.antt =====
-- cmd/iface0/iface.c: the table of commands, `usage` and `main`.
use eoblock.Prelude.{ℕ, Bool, ◌||◌, Option, none, some, List, [], ◌∷◌, ◌==◌, if◌then◌else◌}
use eoblock.Types.{Boolean, b_true, b_false, is_nonzero}
use eoblock.Errors.{eob_badusage, is_eob_err}
use eoblock.System.{M, World, Outcome, ok, err, abort, fault, pure, die}
use eoblock.Chksum.{Zlib}
use eoblock.Cmd.{Text}
use eoblock.Cmd.SelfTest.{main_test}
use eoblock.Cmd.Iface.{Os, Ran}
use eoblock.Sysfs.Words.{same_text}
use eoblock.Cmd.Commands.{
  Help, help_test, help_send, help_recv, help_init, help_deinit, help_add, help_remove, help_dump,
  run_command,
}

-- Where the program writes its usage, or the message of an error.
pub data Stream : Type 0 where
  stdout stderr : Stream

-- How the program ends: with a status and what it printed last.
pub data Status : Type 0 where
  exits : ℕ → Option Stream → Status

-- `boolean_t` is tested as a number.
unfoldable pub usage : Boolean → Status
usage requested = if is_nonzero requested then exits 0 (some stdout) else exits 2 (some stderr)

abbrev pub iface_command_table : List (Text × Help)
iface_command_table =
    (116 ∷ 101 ∷ 115 ∷ 116 ∷ [], help_test)
    ∷ (105 ∷ 110 ∷ 105 ∷ 116 ∷ [], help_init)
    ∷ (100 ∷ 101 ∷ 105 ∷ 110 ∷ 105 ∷ 116 ∷ [], help_deinit)
    ∷ (97 ∷ 100 ∷ 100 ∷ [], help_add)
    ∷ (114 ∷ 101 ∷ 109 ∷ 111 ∷ 118 ∷ 101 ∷ [], help_remove)
    ∷ (115 ∷ 101 ∷ 110 ∷ 100 ∷ [], help_send)
    ∷ (114 ∷ 101 ∷ 99 ∷ 118 ∷ [], help_recv)
    ∷ (100 ∷ 117 ∷ 109 ∷ 112 ∷ [], help_dump)
    ∷ []

unfoldable pub find_command : Text → List (Text × Help) → Option Help
find_command name [] = none
find_command name ((n, h) ∷ rest) =
    let found = find_command name rest in if same_text n name then some h else found

-- -?, --help and -h.
abbrev pub is_help : Text → Bool
is_help name =
    same_text name (45 ∷ 63 ∷ [])
    || same_text name (45 ∷ 45 ∷ 104 ∷ 101 ∷ 108 ∷ 112 ∷ [])
    || same_text name (45 ∷ 104 ∷ [])

-- The end of main, from the value that the command returned.
abbrev pub report_by : Bool → ℕ → M Status
report_by has_text rv =
    if rv == eob_badusage
    then pure (usage b_false)
    else if rv == 0
    then pure (exits 0 none)
    else if has_text
    then pure (exits 1 (some stderr))
    else die

-- `eob_strerror` stops the program where it has no text.
abbrev report : ℕ → M Status
report rv = report_by (is_eob_err rv) rv

abbrev pub reported : Outcome Ran × World → Outcome Status × World
reported (ok r, w) = report r.rv w
reported (err e, w) = report e w
reported (abort, w) = (abort, w)
reported (fault, w) = (fault, w)

-- `return cmd->fn(argc, argv)`
abbrev tested : Outcome ℕ × World → Outcome Status × World
tested (ok rv, w) = (ok (exits rv none), w)
tested (err e, w) = (err e, w)
tested (abort, w) = (abort, w)
tested (fault, w) = (fault, w)

-- The second argument, which is NULL where there is none.
abbrev second : List Text → Option Text
second (name ∷ t ∷ rest) = some t
second _ = none

module _ (z : Zlib) (os : Os) where
  abbrev pub run_found : Option Help → List Text → M Status
  run_found none args = pure (usage b_false)
  run_found (some help_test) args = λ w. tested (main_test z os (second args) w)
  run_found (some cmd) args = λ w. reported (run_command z os cmd args w)

  -- The arguments without the program's name. `liboblock_init` succeeds.
  unfoldable pub main : List Text → M Status
  main [] = pure (usage b_false)
  main (name ∷ rest) =
      if is_help name
      then pure (usage b_true)
      else run_found (find_command name iface_command_table) (name ∷ rest)
