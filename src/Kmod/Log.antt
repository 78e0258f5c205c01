-- ===== src/Kmod/Log.antt =====
-- modules/kmod/eoblock_debug.c: the level that a message of the module is printed with.
use eoblock.Prelude.{
  ℕ, suc, ◌+◌, ◌<◌, ◌≡◌, refl, arith, Option, none, some, List, [], ◌∷◌, ◌++◌, length, ltb,
  if◌then◌else◌, lt→ltb,
}
use eoblock.Types.{LogLvl, eob_err, eob_debug, eob_info, eob_crit, eob_warning, to_lvl}

-- The strings of linux/kern_levels.h: SOH and a digit.
abbrev pub kern_level : ℕ → List ℕ
kern_level digit = 1 ∷ (48 + digit) ∷ []

abbrev kern_crit : List ℕ
kern_crit = kern_level 2

abbrev kern_err : List ℕ
kern_err = kern_level 3

abbrev kern_warning : List ℕ
kern_warning = kern_level 4

abbrev kern_info : List ℕ
kern_info = kern_level 6

abbrev pub kern_debug : List ℕ
kern_debug = kern_level 7

abbrev kern_prefix : LogLvl → List ℕ
kern_prefix eob_debug = kern_debug
kern_prefix eob_info = kern_info
kern_prefix eob_err = kern_err
kern_prefix eob_crit = kern_crit
kern_prefix eob_warning = kern_warning

abbrev buf_size : ℕ
buf_size = 256

-- The format that goes to `vprintk`; `none` where the copies are not defined: they overrun the
-- buffer, or start at a single character without a NUL.
abbrev format_of : Option LogLvl → List ℕ → List ℕ → Option (List ℕ)
format_of none module_name fmt = none
format_of (some lvl) module_name fmt =
    let text = kern_prefix lvl ++ (module_name ++ fmt) in
    if ltb (length text) buf_size then some text else none

unfoldable pub eoblock_vklog : ℕ → List ℕ → List ℕ → Option (List ℕ)
eoblock_vklog prio module_name fmt = format_of (to_lvl prio) module_name fmt

-- `prio[0]`, which is the NUL of an empty string.
abbrev first_char : List ℕ → ℕ
first_char [] = 0
first_char (x ∷ xs) = x

unfoldable pub eoblock_printk : List ℕ → List ℕ → List ℕ → Option (List ℕ)
eoblock_printk prio module_name fmt = eoblock_vklog (first_char prio) module_name fmt

unfoldable eoblock_klog : ℕ → List ℕ → List ℕ → Option (List ℕ)
eoblock_klog prio module_name fmt = eoblock_vklog prio module_name fmt

abbrev lvl_number : LogLvl → ℕ
lvl_number eob_err = 0
lvl_number eob_debug = 1
lvl_number eob_info = 2
lvl_number eob_crit = 3
lvl_number eob_warning = 4

-- Whatever level of linux/kern_levels.h a message of eoblock_printk asks for, it is printed with
-- KERN_DEBUG, since only the first character of the level is looked at. The name of the module and
-- the format have less than 254 characters together.
pub eoblock_printk-kern_debug :
    (digit : ℕ) (module_name fmt : List ℕ)
    → length (module_name ++ fmt) < 254
    → eoblock_printk (kern_level digit) module_name fmt ≡ some (kern_debug ++ (module_name ++ fmt))
unfolding eoblock_printk eoblock_vklog
eoblock_printk-kern_debug digit module_name fmt short =
    rw (lt→ltb (length (kern_debug ++ (module_name ++ fmt))) 256 (omega arith)) refl

-- A message of eoblock_klog is printed with the level of linux/kern_levels.h that has the name of
-- the level it asks for. The name of the module and the format have less than 254 characters
-- together.
eoblock_klog-kern_prefix :
    (lvl : LogLvl) (module_name fmt : List ℕ)
    → length (module_name ++ fmt) < 254
    → eoblock_klog (lvl_number lvl) module_name fmt ≡ some (kern_prefix lvl ++ (module_name ++ fmt))
unfolding eoblock_klog eoblock_vklog
eoblock_klog-kern_prefix eob_err module_name fmt short =
    rw (lt→ltb (suc (suc (length (module_name ++ fmt)))) 256 (omega arith)) refl
eoblock_klog-kern_prefix eob_debug module_name fmt short =
    rw (lt→ltb (suc (suc (length (module_name ++ fmt)))) 256 (omega arith)) refl
eoblock_klog-kern_prefix eob_info module_name fmt short =
    rw (lt→ltb (suc (suc (length (module_name ++ fmt)))) 256 (omega arith)) refl
eoblock_klog-kern_prefix eob_crit module_name fmt short =
    rw (lt→ltb (suc (suc (length (module_name ++ fmt)))) 256 (omega arith)) refl
eoblock_klog-kern_prefix eob_warning module_name fmt short =
    rw (lt→ltb (suc (suc (length (module_name ++ fmt)))) 256 (omega arith)) refl
