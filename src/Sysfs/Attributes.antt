-- ===== src/Sysfs/Attributes.antt =====
-- modules/kmod/eoblock_sysfs.c: the files `setup_id`, `mgmt` and `dev_name`, how a read or a write
-- gets to them, and what a read of them shows.
use eoblock.Prelude.{codes, ℕ, ◌-◌, ◌%◌, ◌^◌, Bool, List, [], ◌∷◌, ◌++◌, length, ltb, if◌then◌else◌}
use eoblock.System.{Outcome, ok}
use eoblock.Sysfs.Words.{Ctype, newline}
use eoblock.Sysfs.{Code, count, failed, Iface, Kernel, State}
use eoblock.Sysfs.Mgmt.{c_string, eoblock_iface_mgmt_store}
use eoblock.Sysfs.Decimal.{decimal}

-- What kstrtoul makes of a text: a number, or an error.
pub data Parsed : Type 0 where
  number : ℕ → Parsed
  refused : ℕ → Parsed

-- The files, `dev_name` with the interface that it lies below.
pub data Attribute : Type 0 where
  setup_id : Attribute
  mgmt : Attribute
  dev_name : Iface → Attribute

-- The state behind the files; `eoblock_setup_id` is the bit pattern of an `int`.
pub record Sysfs : Type 0 where
  pub state : State
  pub eoblock_setup_id : ℕ

abbrev eio : ℕ
eio = 5

-- `sprintf(buf, "%d", x)`: an `int` has ten digits at most.
abbrev print_int : ℕ → List ℕ
print_int x = if ltb x (2 ^ 31) then decimal 10 x else 45 ∷ decimal 10 (2 ^ 32 - x)

unfoldable pub eoblock_setup_id_show : Sysfs → List ℕ
eoblock_setup_id_show s = print_int s.eoblock_setup_id ++ (newline ∷ [])

abbrev help : List ℕ
help =
    codes "Usage: echo \"add iface_name <device, partition, file>\" >mgmt"
    ++ (newline ∷ (codes "       echo \"del iface_name\" >mgmt" ++ (newline ∷ [])))

unfoldable eoblock_iface_mgmt_show : List ℕ
eoblock_iface_mgmt_show = help

unfoldable pub eoblock_iface_dev_name_show : Iface → List ℕ
eoblock_iface_dev_name_show iface = iface.device_name ++ (newline ∷ [])

-- What a read of a file gives; its length is what the function returns.
unfoldable pub eoblock_show : Attribute → Sysfs → List ℕ
unfolding eoblock_iface_mgmt_show
eoblock_show setup_id s = eoblock_setup_id_show s
eoblock_show mgmt s = eoblock_iface_mgmt_show
eoblock_show (dev_name iface) s = eoblock_iface_dev_name_show iface

-- The number is cut to an `int`.
abbrev pub set_setup_id : Parsed → ℕ → Sysfs → Outcome Code × Sysfs
set_setup_id (refused e) size s = (ok (failed e), s)
set_setup_id (number val) size s = (ok (count size), record s { eoblock_setup_id = val % 2 ^ 32 })

abbrev with_state : Sysfs → Outcome Code × State → Outcome Code × Sysfs
with_state s (r, t) = (r, record s { state = t })

module _ (c : Ctype) (kstrtoul : List ℕ → Parsed) where
  unfoldable pub eoblock_setup_id_store : List ℕ → Sysfs → Outcome Code × Sysfs
  eoblock_setup_id_store buf s = set_setup_id (kstrtoul (c_string c buf)) (length buf) s

  -- A file without a store function is not written.
  unfoldable pub eoblock_store : Attribute → Kernel → Bool → List ℕ → Sysfs → Outcome Code × Sysfs
  eoblock_store setup_id k allocated buf s = eoblock_setup_id_store buf s
  eoblock_store mgmt k allocated buf s =
      with_state s (eoblock_iface_mgmt_store c k allocated buf s.state)
  eoblock_store (dev_name iface) k allocated buf s = (ok (failed eio), s)
