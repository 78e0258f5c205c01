-- ===== src/Tests/Modules.antt =====
-- The life of the kernel module and the files of sysfs.
use eoblock.Prelude.{
  ℕ, ◌+◌, ◌*◌, ◌-◌, ◌≡◌, refl, arith, true, false, List, [], ◌∷◌, ◌++◌, length, ◌==◌, if◌then◌else◌,
  codes,
}
use eoblock.System.{ok}
use eoblock.Sysfs.Words.{newline}
use eoblock.Sysfs.{Kernel, count, einval, State}
use eoblock.Sysfs.Mgmt.{eoblock_iface_mgmt_store}
use eoblock.Sysfs.Invariant.{no_ifaces}
use eoblock.Sysfs.Decimal.{decimal_value, Digits, IsNumeral, IsNumeral-Digits}
use eoblock.Sysfs.Attributes.{
  Parsed, number, refused, setup_id, mgmt, Sysfs, eoblock_show, eoblock_store,
}
use eoblock.Sysfs.SetupId.{Reads, eoblock_store-show}
use eoblock.Kmod.Life
use eoblock.Kmod.Life.{Loaded, Life, oeblock_init}
use eoblock.Tests.Samples.{ascii, ok_kernel}

abbrev add_text : List ℕ
add_text = codes "add eob dev=sda"

-- The list behind one `add`.
abbrev one_added : State
one_added = (eoblock_iface_mgmt_store ascii ok_kernel true add_text no_ifaces).1

abbrev del_text : List ℕ
del_text = codes "del eob"

-- The kernel's answers would refuse a second one of the name.
abbrev refusing : Kernel
refusing = record ok_kernel { kobject_init_and_add = 17; register_netdev = 17 }

-- A kstrtoul for decimal digits.
abbrev digits_from : ℕ → List ℕ → Parsed
digits_from acc [] = number acc
digits_from acc (d ∷ ds) =
    let rest = digits_from (acc * 10 + (d - 48)) ds in if d == 10 then number acc else rest

abbrev unsigned : List ℕ → Parsed
unsigned [] = refused einval
unsigned (d ∷ ds) = let n = digits_from 0 (d ∷ ds) in if d == 45 then refused einval else n

digits_from-Digits :
    (acc : ℕ) (ds : List ℕ)
    → Digits ds
    → digits_from acc (ds ++ (newline ∷ [])) ≡ number (decimal_value acc ds)
unfolding decimal_value
digits_from-Digits acc [] h = refl
digits_from-Digits acc (d ∷ ds) (h, hs) =
    let e : (d == 10) ≡ false = ground arith in
    rw e (digits_from-Digits (acc * 10 + (d - 48)) ds hs)

unsigned-digits :
    (ds : List ℕ) → IsNumeral ds → unsigned (ds ++ (newline ∷ [])) ≡ number (decimal_value 0 ds)
unfolding IsNumeral
unsigned-digits [] h = absurd h
unsigned-digits (d ∷ ds) h =
    let g : Digits (d ∷ ds) = IsNumeral-Digits (d ∷ ds) h in
    let e : (d == 45) ≡ false = ground (arith, g.0) in rw e (digits_from-Digits 0 (d ∷ ds) g)

unsigned-Reads : Reads unsigned
unsigned-Reads = record { digits = λ ds h k. unsigned-digits ds h; minus = λ text. refl }

abbrev setup : ℕ → Sysfs
setup n = record { state = no_ifaces; eoblock_setup_id = n }

eoblock_store-show_example :
    eoblock_store ascii unsigned setup_id ok_kernel true
      (eoblock_show setup_id (setup 42))
      (setup 7)
    ≡ (ok (count (length (eoblock_show setup_id (setup 42)))), setup 42)
eoblock_store-show_example =
    eoblock_store-show ascii unsigned-Reads ok_kernel true (setup 42) (setup 7) (omega arith)

-- A module that has started, and to which two files are written.
abbrev loaded : Loaded
loaded = (oeblock_init true 0 true).1

abbrev named : Loaded
named = record loaded {
  sysfs = (eoblock_store ascii unsigned mgmt ok_kernel true add_text loaded.sysfs).1;
}
