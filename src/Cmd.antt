-- ===== src/Cmd.antt =====
-- cmd/iface0/iface.c: the options of the commands. What `getopt` of the C library does with them is
-- written out, with the operands moved behind the options as glibc does.
pub mod Iface
pub mod Commands
pub mod SelfTest
pub mod SelfTestRuns
pub mod Parses
pub mod Messages
pub mod Main
pub mod Laws
pub mod Misuse
pub mod Mailing
pub mod Canon
pub mod Lines
pub mod Administers
pub mod Users
pub mod Follows
pub mod Post
pub mod Life
use eoblock.Prelude.{
  ℕ, zero, suc, ◌+◌, ◌*◌, ◌-◌, Bool, true, false, not, ◌&&◌, ◌||◌, Option, none, some, List, [],
  ◌∷◌, ◌++◌, length, get_elem?, ltb, leb, min, ◌^◌, ◌%◌, ◌==◌, if◌then◌else◌,
}
use eoblock.Macros.{sub64, u64}
use eoblock.Types.{Boolean, b_true, b_false}

abbrev pub Text : Type 0
Text = List ℕ

-- One result of `getopt`: an option with its `optarg`, or '?'.
pub data Opt : Type 0 where
  flag : ℕ → Opt
  arg : ℕ → Text → Opt
  bad : ℕ → Opt

-- The string of options: the letters, and whether a colon follows.
abbrev pub Optstring : Type 0
Optstring = List (ℕ × Bool)

abbrev lookup_opt : ℕ → Optstring → Option Bool
lookup_opt c [] = none
lookup_opt c ((x, a) ∷ xs) = let rest = lookup_opt c xs in if x == c then some a else rest

abbrev dash : ℕ
dash = 45

-- An argument is what is left of the word, or the next word.
abbrev rest_as_argument : ℕ → Text → List Opt × Option ℕ
rest_as_argument c [] = ([], some c)
rest_as_argument c (x ∷ xs) = (arg c (x ∷ xs) ∷ [], none)

-- The letters of one word, and the letter whose argument is the next word.
abbrev letters : Optstring → Text → List Opt × Option ℕ
letters spec [] = ([], none)
letters spec (c ∷ cs) =
    let (os, pending) = letters spec cs in
    elim (lookup_opt c spec) [
      | none ↦ (bad c ∷ os, pending)
      | some false ↦ (flag c ∷ os, pending)
      | some true ↦ rest_as_argument c cs
    ]

-- A word: an operand, the mark `--` that ends the options, or letters.
pub data Word : Type 0 where
  operand : Word
  mark : Word
  options : Text → Word

abbrev word_of : Text → Word
word_of [] = operand
word_of (x ∷ []) = operand
word_of (x ∷ y ∷ zs) =
    if not (x == dash)
    then operand
    else if y == dash && length zs == 0
    then mark
    else options (y ∷ zs)

-- What `getopt` gives, call by call, and the operands that are left.
pub record Parsed : Type 0 where
  pub opts : List Opt
  pub operands : List Text

abbrev with_opts : List Opt → Parsed → Parsed
with_opts os p = record p { opts = os ++ p.opts }

abbrev with_word : Word → Text → List Text → (Option ℕ → Parsed) → Optstring → Parsed
with_word operand a rest next spec = let p = next none in record p { operands = a ∷ p.operands }
with_word mark a rest next spec = record { opts = []; operands = rest }
with_word (options cs) a rest next spec =
    let (os, pending) = letters spec cs in with_opts os (next pending)

abbrev scan : Optstring → List Text → Option ℕ → Parsed
scan spec [] none = record { opts = []; operands = [] }
scan spec [] (some c) = record { opts = bad c ∷ []; operands = [] }
scan spec (a ∷ rest) none = with_word (word_of a) a rest (scan spec rest) spec
scan spec (a ∷ rest) (some c) = with_opts (arg c a ∷ []) (scan spec rest none)

unfoldable pub getopt : Optstring → List Text → Parsed
getopt spec args = scan spec args none

-- `atoi`, that is `(int) strtol(s, NULL, 10)`: white space, a sign, and the digits up to the first
-- character that is none.
abbrev is_space : ℕ → Bool
is_space c = c == 32 || (leb 9 c && leb c 13)

abbrev digits : ℕ → Text → ℕ
digits n [] = n
digits n (c ∷ cs) =
    let rest = digits (n * 10 + (c - 48)) cs in if leb 48 c && leb c 57 then rest else n

-- `strtol` stops at the ends of `long`. The bits of the result as those of a `uint64_t`.
abbrev to_long : Bool → ℕ → ℕ
to_long false n = min n (2 ^ 63 - 1)
to_long true n = sub64 0 (min n (2 ^ 63))

-- The low 32 bits as an `int`, and that as the `uint64_t` that it is converted to.
abbrev int_of : ℕ → ℕ
int_of n = let low = n % 2 ^ 32 in if ltb low (2 ^ 31) then low else low + (2 ^ 64 - 2 ^ 32)

abbrev signed : Text → ℕ
signed [] = 0
signed (c ∷ cs) =
    if c == dash
    then to_long true (digits 0 cs)
    else if c == 43
    then to_long false (digits 0 cs)
    else to_long false (digits 0 (c ∷ cs))

abbrev strtol : Text → ℕ
strtol [] = 0
strtol (c ∷ cs) = let rest = strtol cs in if is_space c then rest else signed (c ∷ cs)

-- Where `long` has 64 bits and `int` 32, as glibc has it.
unfoldable pub atoi : Text → ℕ
atoi s = int_of (strtol s)

-- The local variables that the loops set; `none` is NULL, or for the file not set.
pub record Settings : Type 0 where
  pub verbose : Boolean
  pub force : Boolean
  pub json : Boolean
  pub file : Option Text
  pub src : Option Text
  pub dst : Option Text
  pub nodes : Option Text
  pub ip : Option Text
  pub node_id : Option Text
  pub virt : Option Text
  pub phys : Option Text

unfoldable pub unset : Settings
unset = record {
  verbose = b_false;
  force = b_false;
  json = b_false;
  file = none;
  src = none;
  dst = none;
  nodes = none;
  ip = none;
  node_id = none;
  virt = none;
  phys = none;
}

-- The loop over the options, with the switch of a command; `none` is `goto badusage`.
abbrev then_read : Option Settings → (Settings → Option Settings) → Option Settings
then_read none next = none
then_read (some s) next = next s

unfoldable pub read_opts :
    (Opt → Settings → Option Settings) → List Opt → Settings → Option Settings
read_opts switch [] s = some s
read_opts switch (o ∷ os) s = then_read (switch o s) (read_opts switch os)

abbrev pub letter_v : ℕ
letter_v = 118

abbrev pub upper_f : ℕ
upper_f = 70

abbrev pub letter_f : ℕ
letter_f = 102

abbrev pub letter_s : ℕ
letter_s = 115

abbrev pub letter_d : ℕ
letter_d = 100

abbrev pub letter_c : ℕ
letter_c = 99

abbrev pub letter_n : ℕ
letter_n = 110

abbrev pub letter_i : ℕ
letter_i = 105

abbrev pub letter_j : ℕ
letter_j = 106

abbrev pub upper_v : ℕ
upper_v = 86

abbrev pub upper_p : ℕ
upper_p = 80
