-- ===== src/Kmod.antt =====
-- modules/kmod/eoblock_device.c and eoblock_main.c: the network devices of the kernel module, the
-- table of them by node, and the search for a block device.
pub mod Log
pub mod Table
pub mod Files
pub mod Life
pub mod Steady
use eoblock.Prelude.{
  ℕ, zero, suc, ◌+◌, ◌==◌, Bool, true, false, not, Option, none, some, List, [], ◌∷◌, ◌++◌, length,
  get_elem?, set, ltb, leb, replicate, if◌then◌else◌,
}
use eoblock.System.{Outcome, ok, fault}
use eoblock.Sysfs.{Code, count, failed, enoent, enomem, enodev, einval}

-- What a call of the kernel that gives a pointer or an error gives.
pub data Ptr {ℓ} (A : Type ℓ) : Type ℓ where
  err_ptr : ℕ → Ptr A
  valid : A → Ptr A

-- `struct block_device`: the capacity of its disk, if it has one.
pub record BlockDevice : Type 0 where
  pub bd_disk : Option ℕ

-- `struct eob_device` of the module, as far as it is set. `fd` and `bdev` are set by the functions
-- that open.
pub record EobDevice : Type 0 where
  pub name : List ℕ
  pub path : List ℕ
  pub bdev : Option BlockDevice
  pub fd : Option ℕ
  pub sectors : ℕ

-- The loop of eob_open_blk: what `blkdev_get_by_path` gives, call by call, and how many calls are
-- left. Behind the end of the list it gives -ENOENT. The first component is the number of calls.
unfoldable pub find_disk : ℕ → List (Ptr (Option BlockDevice)) → ℕ × Ptr (Option BlockDevice)
find_disk zero replies = (0, err_ptr enoent)
find_disk (suc n) [] = let (k, r) = find_disk n [] in (suc k, r)
find_disk (suc n) (valid b ∷ rest) = (1, valid b)
find_disk (suc n) (err_ptr e ∷ rest) =
    let (k, r) = find_disk n rest in if e == enoent then (suc k, r) else (1, err_ptr e)

-- A network device in the table: registered, or unregistered and freed.
pub data NetDevice : Type 0 where
  registered : EobDevice → NetDevice
  gone : NetDevice

-- `struct eob_ctx`; `none` is NULL.
pub record Ctx : Type 0 where
  pub devices : List (Option NetDevice)

-- The state of the module: the table, and how often its lock was taken and given back.
pub record Module : Type 0 where
  pub ctx : Ctx
  pub locked : ℕ
  pub unlocked : ℕ

-- The private part of a network device that eob_device_ctor has set up: zeroed.
abbrev eob_device_ctor : EobDevice
eob_device_ctor = record { name = []; path = []; bdev = none; fd = none; sectors = 0 }

abbrev pub path_max : ℕ
path_max = 4096

-- add_eob_device_impl, by what `alloc_netdev` and `register_netdev` give. `strcpy` to the path is
-- defined for what fits the array with its NUL.
unfoldable pub add_eob_device_impl : Bool → ℕ → List ℕ → Outcome (Ptr EobDevice)
add_eob_device_impl alloc_netdev register_netdev path =
    if not alloc_netdev
    then ok (err_ptr enodev)
    else if leb path_max (length path)
    then fault
    else if register_netdev == 0
    then ok (valid (record eob_device_ctor { path = path }))
    else ok (err_ptr enodev)

abbrev pub spin_lock : Module → Module
spin_lock m = record m { locked = suc m.locked }

abbrev spin_unlock : Module → Module
spin_unlock m = record m { unlocked = suc m.unlocked }

-- The store to the table is defined for a node in it.
abbrev pub stored : Outcome (Ptr EobDevice) → ℕ → Module → Outcome Code × Module
stored (ok (err_ptr e)) node_id m = (ok (failed e), spin_unlock m)
stored (ok (valid dev)) node_id m =
    if ltb node_id (length m.ctx.devices)
    then (
      ok (count 0),
      spin_unlock (record m {
        ctx = record { devices = set m.ctx.devices node_id (some (registered dev)) };
      }),
    )
    else (fault, m)
stored _ node_id m = (fault, m)

unfoldable pub add_eob_device : Bool → ℕ → List ℕ → ℕ → Module → Outcome Code × Module
add_eob_device alloc_netdev register_netdev path node_id m =
    stored (add_eob_device_impl alloc_netdev register_netdev path) node_id (spin_lock m)

-- remove_eob_device_impl frees what the table goes on pointing to.
abbrev pub dropped : Option (Option NetDevice) → ℕ → Module → Outcome Code × Module
dropped (some (some (registered dev))) node_id m = (
  ok (count 0),
  spin_unlock (record m { ctx = record { devices = set m.ctx.devices node_id (some gone) } }),
)
dropped _ node_id m = (fault, m)

unfoldable pub remove_eob_device : ℕ → Module → Outcome Code × Module
remove_eob_device node_id m = dropped (get_elem? m.ctx.devices node_id) node_id (spin_lock m)
