-- ===== src/Sysfs.antt =====
-- modules/kmod/eoblock_sysfs.c: the list of interfaces, and what adds one to it and removes one. With modules/kmod/eoblock_device.c, whose `eob_device_open` makes the network device.
pub mod Words
pub mod Ifaces
pub mod Registry
pub mod Orderly
pub mod Again
pub mod Bounds
pub mod Decimal
pub mod Attributes
pub mod SetupId
pub mod Invariant
pub mod Mgmt
pub mod Cutting
pub mod Parse
use eoblock.Prelude.{
  ℕ, zero, suc, ◌+◌, Bool, true, false, not, Option, none, some, List, [], ◌∷◌, ◌++◌, length, take,
  ltb, leb, ◌==◌, if◌then◌else◌,
}
use eoblock.System.{Outcome, ok, abort, fault}
use eoblock.Sysfs.Words.{
  Ctype, eoblock_get_next_lexem, eoblock_get_next_token_str, same_word, same_text,
}

-- What a handler returns: a size, or a negated error number.
pub data Code : Type 0 where
  count : ℕ → Code
  failed : ℕ → Code

abbrev pub enoent : ℕ
enoent = 2

abbrev pub enomem : ℕ
enomem = 12

abbrev pub enodev : ℕ
enodev = 19

abbrev pub einval : ℕ
einval = 22

-- `struct eoblock_iface_base` with its `struct eob_device`.
pub record Iface : Type 0 where
  pub name : List ℕ
  pub device_name : List ℕ

-- An entry of the list: an interface, or memory that was freed and not unlinked.
pub data Entry : Type 0 where
  live : Iface → Entry
  freed : Entry

-- `eoblock_ifaces`, the names of the kobjects below `ifaces`, and the registered network devices.
pub record State : Type 0 where
  pub ifaces : List Entry
  pub kobjects : List (List ℕ)
  pub netdevs : List (List ℕ)

-- What the kernel answers to the calls of one command: 0, or an error number. That
-- `kobject_init_and_add` and `register_netdev` refuse a name that is there is a hypothesis on the
-- answers, `Orderly.IsDocumented`.
pub record Kernel : Type 0 where
  pub kcalloc : Bool
  pub kobject_init_and_add : ℕ
  pub sysfs_create_file : ℕ
  pub alloc_netdev : Bool
  pub register_netdev : ℕ

abbrev name_size : ℕ
name_size = 256

abbrev pub Command : Type 0
Command = State → Outcome Code × State

abbrev returns : Code → Command
returns r s = (ok r, s)

-- eoblock_device.c. `none` is success.
unfoldable pub eob_device_open : Kernel → List ℕ → State → Option ℕ × State
eob_device_open k pname s =
    if not k.alloc_netdev
    then (some enodev, s)
    else if k.register_netdev == 0
    then (none, record s { netdevs = pname ∷ s.netdevs })
    else (some enodev, s)

-- eoblock_device.c: the function is empty, so the network device stays registered.
unfoldable pub eob_device_close : Iface → State → State
eob_device_close i s = s

-- kobject_del: the name without the first kobject that has it.
abbrev pub without : List ℕ → List (List ℕ) → List (List ℕ)
without n [] = []
without n (x ∷ xs) = let rest = without n xs in if same_text x n then xs else x ∷ rest

abbrev behind : Entry → Option (List Entry) → Option (List Entry)
behind x none = none
behind x (some xs) = some (x ∷ xs)

-- `list_add_tail` writes to the entry at the end; `none` where that was freed.
abbrev pub list_add_tail : Entry → List Entry → Option (List Entry)
list_add_tail e [] = some (e ∷ [])
list_add_tail e (freed ∷ []) = none
list_add_tail e (x ∷ xs) = behind x (list_add_tail e xs)

abbrev added : Option ℕ × State → Iface → List Entry → Outcome Code × State
added (none, s) i es = (ok (count 0), s)
added (some e, s) i es =
    (ok (failed e), record s { ifaces = es; kobjects = without i.name s.kobjects })

-- From the list on: the interface is linked and the device opened. A device that does not open has
-- the interface freed, and not unlinked.
abbrev linked :
    Kernel → Iface → State → Option (List Entry) × Option (List Entry) → Outcome Code × State
linked k i s (some es, some broken) =
    added
      (eob_device_open k i.name (record s { ifaces = es; kobjects = s.kobjects ++ (i.name ∷ []) }))
      i broken
linked k i s _ = (fault, s)

-- The length of the device's path is tested with `>`, so that 256 characters and a NUL are copied to
-- 256 bytes.
unfoldable pub eoblock_add_iface_kobj : Kernel → List ℕ → List ℕ → Command
eoblock_add_iface_kobj k iface_name device s =
    if not k.kcalloc
    then (ok (failed enomem), s)
    else if leb name_size (length iface_name)
    then (ok (failed einval), s)
    else if ltb name_size (length device)
    then (ok (failed einval), s)
    else if length device == name_size
    then (fault, s)
    else if not (k.kobject_init_and_add == 0)
    then (ok (failed k.kobject_init_and_add), s)
    else if not (k.sysfs_create_file == 0)
    then (ok (failed k.sysfs_create_file), s)
    else let i : Iface = record { name = iface_name; device_name = device } in
      linked k i s (list_add_tail (live i) s.ifaces, list_add_tail freed s.ifaces)

-- What the search of eoblock_remove_iface and `list_del` come to: no entry has the name, freed
-- memory is read or written, or the entry and the list without it.
pub data Search : Type 0 where
  absent : Search
  broken : Search
  found : Iface → List Entry → Search

abbrev pub passed : Entry → Search → Search
passed e absent = absent
passed e broken = broken
passed e (found i es) = found i (e ∷ es)

-- `list_del` writes to the entry behind.
abbrev pub list_del : Iface → List Entry → Search
list_del i (freed ∷ es) = broken
list_del i es = found i es

abbrev pub search_iface : List ℕ → List Entry → Search
search_iface name [] = absent
search_iface name (freed ∷ es) = broken
search_iface name (live i ∷ es) =
    let rest = search_iface name es in
    if same_text i.name name then list_del i es else passed (live i) rest

abbrev removed : Search → Command
removed absent s = (ok (failed enoent), s)
removed broken s = (fault, s)
removed (found i es) s =
    let s' = eob_device_close i s in
    (ok (count 0), record s' { ifaces = es; kobjects = without i.name s'.kobjects })

unfoldable pub eoblock_remove_iface : List ℕ → Command
unfolding eob_device_close
eoblock_remove_iface name s = removed (search_iface name s.ifaces) s
