-- ===== src/Types.antt =====
-- include/sys/eob_types.h and include/eoblock_defs.h: the enumerations. `boolean_t` counts B_TRUE first,
-- so that it is the zero.
use eoblock.Prelude.{ℕ, Bool, true, false, ◌==◌, not, Option, none, some, if◌then◌else◌}

pub data Boolean : Type 0 where
  b_true b_false : Boolean

-- The value of the enumerator, as C tests it in `b ? x : y`.
abbrev as_int : Boolean → ℕ
as_int b_true = 0
as_int b_false = 1

-- `b ? … : …`
abbrev pub is_nonzero : Boolean → Bool
is_nonzero b = not (as_int b == 0)

-- `b == B_TRUE`
abbrev pub is_b_true : Boolean → Bool
is_b_true b_true = true
is_b_true b_false = false

-- `i ? B_TRUE : B_FALSE`
abbrev pub boolean_of : Bool → Boolean
boolean_of true = b_true
boolean_of false = b_false

-- `eob_log_lvl` of include/eoblock_defs.h.
pub data LogLvl : Type 0 where
  eob_err : LogLvl
  eob_debug : LogLvl
  eob_info : LogLvl
  eob_crit : LogLvl
  eob_warning : LogLvl

-- The number of an `eob_log_lvl`, and back; `none` is no member.
abbrev pub to_lvl : ℕ → Option LogLvl
to_lvl n =
    if n == 0
    then some eob_err
    else if n == 1
    then some eob_debug
    else if n == 2
    then some eob_info
    else if n == 3
    then some eob_crit
    else if n == 4
    then some eob_warning
    else none
