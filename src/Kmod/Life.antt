-- ===== src/Kmod/Life.antt =====
-- The life of the kernel module: its start, what is done while it is loaded, and its end, from
-- modules/kmod/eoblock_main.c and eoblock_sysfs.c.
use eoblock.Prelude.{
  ℕ, ◌≡◌, Bool, true, false, not, Option, none, some, List, replicate, ◌==◌, if◌then◌else◌,
}
use eoblock.System.{ok}
use eoblock.Sysfs.Words.{Ctype}
use eoblock.Sysfs.{Code, count, failed, enomem, einval, Kernel}
use eoblock.Sysfs.Orderly.{Answers}
use eoblock.Sysfs.Invariant.{named_in, Renews, no_ifaces}
use eoblock.Sysfs.Attributes.{Parsed, mgmt, Sysfs, eoblock_setup_id_store, eoblock_store}
use eoblock.Kmod.{Module, add_eob_device, remove_eob_device}

abbrev pub max_eob_devices : ℕ
max_eob_devices = 32

-- The directories `eoblock` and `eoblock/ifaces` of sysfs.
pub record Folders : Type 0 where
  pub root : Bool
  pub ifaces : Bool

abbrev no_folders : Folders
no_folders = record { root = false; ifaces = false }

-- By what `kobject_init_and_add` and `kobject_create_and_add` give.
unfoldable pub eoblock_sysfs_init : ℕ → Bool → Code × Folders
eoblock_sysfs_init kobject_init_and_add kobject_create_and_add =
    if not (kobject_init_and_add == 0)
    then (failed kobject_init_and_add, no_folders)
    else if not kobject_create_and_add
    then (failed einval, no_folders)
    else (count 0, record { root = true; ifaces = true })

unfoldable pub eoblock_sysfs_cleanup : Folders → Folders
eoblock_sysfs_cleanup f = no_folders

-- The module with its memory; `eob_ctx` is `none` before it is allocated and after it is freed.
pub record Loaded : Type 0 where
  pub eob_ctx : Option Module
  pub folders : Folders
  pub sysfs : Sysfs

abbrev fresh_ctx : Module
fresh_ctx = record {
  ctx = record { devices = replicate max_eob_devices none };
  locked = 0;
  unlocked = 0;
}

abbrev start : Option Module → Code × Folders → Code × Loaded
start m (r, f) = (
  r,
  record { eob_ctx = m; folders = f; sysfs = record { state = no_ifaces; eoblock_setup_id = 0 } },
)

-- Where the directories cannot be had, `eob_ctx` is not freed.
unfoldable pub oeblock_init : Bool → ℕ → Bool → Code × Loaded
unfolding eoblock_sysfs_init
oeblock_init kcalloc kobject_init_and_add kobject_create_and_add =
    if not kcalloc
    then start none (failed enomem, no_folders)
    else start (some fresh_ctx) (eoblock_sysfs_init kobject_init_and_add kobject_create_and_add)

-- The interfaces and their network devices are left.
unfoldable pub oeblock_exit : Loaded → Loaded
unfolding eoblock_sysfs_cleanup
oeblock_exit l = record l { folders = eoblock_sysfs_cleanup l.folders; eob_ctx = none }

module _ (c : Ctype) (kstrtoul : List ℕ → Parsed) where
  -- What can happen to a loaded module: a write to a file, and calls of the two exported functions
  -- that come to an end.
  pub data Event : Loaded → Loaded → Type 0 where
    write_setup_id :
        (buf : List ℕ) (l : Loaded)
        → Event l (record l { sysfs = (eoblock_setup_id_store c kstrtoul buf l.sysfs).1 })
    write_mgmt :
        (k : Kernel) (allocated : Bool) (buf : List ℕ) (l : Loaded)
        → Answers k (named_in c buf) l.sysfs.state
        → Renews c buf l.sysfs.state
        → Event l (record l { sysfs = (eoblock_store c kstrtoul mgmt k allocated buf l.sysfs).1 })
    add_device :
        (alloc_netdev : Bool) (register_netdev : ℕ) (path : List ℕ) (node : ℕ) (l : Loaded)
        (m m' : Module) (r : Code)
        → l.eob_ctx ≡ some m
        → add_eob_device alloc_netdev register_netdev path node m ≡ (ok r, m')
        → Event l (record l { eob_ctx = some m' })
    remove_device :
        (node : ℕ) (l : Loaded) (m m' : Module) (r : Code)
        → l.eob_ctx ≡ some m
        → remove_eob_device node m ≡ (ok r, m')
        → Event l (record l { eob_ctx = some m' })

  pub data Life (l : Loaded) : Loaded → Type 0 where
    here : Life l l
    after : {m n : Loaded} → Life l m → Event m n → Life l n
