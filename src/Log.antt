-- ===== src/Log.antt =====
-- lib/eob_log.c: the log of the library, a line for the system's log and, if the program is verbose, for
-- the console. How a format and its arguments become a text is the C library's: the text is an
-- argument, `none` where vasprintf fails.
use eoblock.Prelude.{
  ℕ, ◌≡◌, refl, Bool, true, false, Option, none, some, List, [], ◌∷◌, ◌++◌, if◌then◌else◌, codes,
}
use eoblock.System.{Outcome, ok, abort}
use eoblock.Types.{LogLvl, eob_err, eob_debug, eob_info, eob_crit, eob_warning, to_lvl}

abbrev Text : Type 0
Text = List ℕ

-- `eob_log_verbose`, and the lines that were written.
record Logger : Type 0 where
  verbose : Bool
  console : List Text
  syslog : List Text

unfoldable eob_log_init : Logger → ℕ × Logger
eob_log_init l = (0, l)

unfoldable eob_log_exit : Logger → Logger
eob_log_exit l = l

unfoldable eob_log_set_verbose : Logger → Logger
eob_log_set_verbose l = record l { verbose = true }

abbrev name_of : LogLvl → Text
name_of eob_crit = codes "CRIT"
name_of eob_info = codes "INFO"
name_of eob_debug = codes "DEBUG"
name_of eob_warning = codes "WARNING"
name_of eob_err = codes "ERROR"

abbrev name_or_none : Option LogLvl → Option Text
name_or_none none = none
name_or_none (some l) = some (name_of l)

-- `none` is UNREACHABLE_CODE. The case for EOB_WARING is taken for the EOB_WARNING that it means.
unfoldable eob_log_lvl_to_str : ℕ → Option Text
eob_log_lvl_to_str lvl = name_or_none (to_lvl lvl)

abbrev shown : Text → Logger → Logger
shown line l = record l {
  console = if l.verbose then l.console ++ (line ∷ []) else l.console;
  syslog = l.syslog ++ (line ∷ []);
}

abbrev line_of : Text → Text → Text → Text
line_of level module_name s = level ++ (codes ": " ++ (module_name ++ s))

abbrev written : Bool → Option Text → Text → Text → Logger → Outcome ℕ × Logger
written allocated none module_name s l = (abort, l)
written allocated (some level) module_name s l =
    if allocated then (ok 0, shown (line_of level module_name s) l) else (abort, l)

-- A text without characters is taken for a failure of vasprintf. `allocated` is whether the second
-- allocation, of the line, is given.
unfoldable v_eob_log_write_console : Bool → ℕ → Text → Option Text → Logger → Outcome ℕ × Logger
unfolding eob_log_lvl_to_str
v_eob_log_write_console allocated lvl module_name none l = (abort, l)
v_eob_log_write_console allocated lvl module_name (some []) l = (abort, l)
v_eob_log_write_console allocated lvl module_name (some (c ∷ cs)) l =
    written allocated (eob_log_lvl_to_str lvl) module_name (c ∷ cs) l

unfoldable eob_log_write : Bool → ℕ → Text → Option Text → Logger → Outcome ℕ × Logger
unfolding v_eob_log_write_console
eob_log_write allocated lvl module_name s l = v_eob_log_write_console allocated lvl module_name s l

unfoldable eob_log_write_console : Bool → ℕ → Text → Option Text → Logger → Outcome ℕ × Logger
unfolding v_eob_log_write_console
eob_log_write_console allocated lvl module_name s l =
    v_eob_log_write_console allocated lvl module_name s l

-- A message is written to the system's log alone until the program becomes verbose, and to both from
-- then on; an empty message stops the program.
eob_log_write-set_verbose :
    (c : ℕ) (cs module_name : Text) (l : Logger)
    → l.verbose ≡ false
    → let line : Text = codes "INFO: " ++ (module_name ++ (c ∷ cs)) in
      ((eob_log_write true 2 module_name (some (c ∷ cs)) l).1.console ≡ l.console)
      × ((eob_log_write true 2 module_name (some (c ∷ cs)) (eob_log_set_verbose l)).1.console
          ≡ l.console ++ (line ∷ []))
      × ((eob_log_write true 2 module_name (some (c ∷ cs)) l).1.syslog
          ≡ (eob_log_write true 2 module_name (some (c ∷ cs)) (eob_log_set_verbose l)).1.syslog)
      × ((eob_log_write true 2 module_name (some []) l).0 ≡ abort)
unfolding eob_log_write eob_log_set_verbose
eob_log_write-set_verbose c cs module_name l quiet = (rw quiet refl, refl, refl, refl)
