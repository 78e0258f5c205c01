-- ===== src/Kmod/Table.antt =====
-- The table of devices over `add_eob_device` and `remove_eob_device`, its lock, and the search for a
-- disk that is not there yet.
use eoblock.Prelude.{
  ℕ, zero, suc, ◌<◌, ◌≤◌, ◌≡◌, refl, arith, Bool, true, false, Option, none, some, List, [], ◌∷◌,
  ◌++◌, length, replicate, get_elem?, set, ltb, leb, ◌==◌, lt→ltb, get_elem?-set_self, set-set,
  get_elem?-set_ne, inl, inr, ◌≢◌, Bool-cases,
}
use eoblock.System.{ok, fault}
use eoblock.Sysfs.{count, enoent}
use eoblock.Kmod.{
  Ptr, err_ptr, valid, BlockDevice, EobDevice, find_disk, NetDevice, registered, gone, Ctx, Module,
  path_max, add_eob_device_impl, add_eob_device, remove_eob_device,
}

-- A disk that appears after `k` calls that gave -ENOENT, `k` below the limit, is found by the next
-- call, and no call is made after that.
find_disk-appears :
    (n k : ℕ) (b : Option BlockDevice) (rest : List (Ptr (Option BlockDevice)))
    → k < n
    → find_disk n (replicate k (err_ptr enoent) ++ (valid b ∷ rest)) ≡ (suc k, valid b)
unfolding find_disk
find_disk-appears zero k b rest h = absurd (omega arith)
find_disk-appears (suc n) zero b rest h = refl
find_disk-appears (suc n) (suc k) b rest h = rw (find_disk-appears n k b rest (omega arith)) refl

-- The search for a disk makes no more calls than its limit, whatever they give.
find_disk-bound : (n : ℕ) (replies : List (Ptr (Option BlockDevice))) → (find_disk n replies).0 ≤ n
unfolding find_disk
find_disk-bound zero replies = omega arith
find_disk-bound (suc n) [] = omega (arith, find_disk-bound n [])
find_disk-bound (suc n) (valid b ∷ rest) = omega arith
find_disk-bound (suc n) (err_ptr e ∷ rest) = elim (Bool-cases (e == enoent)) [
  | inl q ↦ rw q (omega (arith, find_disk-bound n rest))
  | inr q ↦ rw q (omega arith)
]

abbrev ctx_of : List (Option NetDevice) → Ctx
ctx_of ds = record { devices = ds }

-- The device that add_eob_device makes.
abbrev device_at : List ℕ → EobDevice
device_at path = record { name = []; path = path; bdev = none; fd = none; sectors = 0 }

module _ (path : List ℕ) (node : ℕ) (m : Module) (inside : node < length m.ctx.devices) where
  abbrev pub with_entry : NetDevice → ℕ → ℕ → Module
  with_entry e locked unlocked = record {
    ctx = ctx_of (set m.ctx.devices node (some e));
    locked = locked;
    unlocked = unlocked;
  }

  -- A device that registers is stored at its node, and the lock is given back.
  add_eob_device-stored :
      length path < path_max
      → add_eob_device true 0 path node m
        ≡ (ok (count 0), with_entry (registered (device_at path)) (suc m.locked) (suc m.unlocked))
  unfolding add_eob_device add_eob_device_impl
  add_eob_device-stored short =
      let fits : leb path_max (length path) ≡ false = ground arith in
      rw fits (rw (lt→ltb node (length m.ctx.devices) inside) refl)

  remove-registered :
      (dev : EobDevice) (a b : ℕ)
      → remove_eob_device node (with_entry (registered dev) a b)
        ≡ (ok (count 0), with_entry gone (suc a) (suc b))
  unfolding remove_eob_device
  remove-registered dev a b =
      rw (get_elem?-set_self m.ctx.devices node (some (registered dev)) inside)
        (rw (set-set m.ctx.devices node (some (registered dev)) (some gone)) refl)

  remove-gone : (a b : ℕ) → (remove_eob_device node (with_entry gone a b)).0 ≡ fault
  unfolding remove_eob_device
  remove-gone a b = rw (get_elem?-set_self m.ctx.devices node (some gone) inside) refl

  -- A device that registers, and is added at a node of the table with a path that fits, can be
  -- removed once: the table goes on pointing to it, and a second removal reads freed memory. The
  -- lock is given back by the first two calls.
  pub remove_eob_device-add :
      length path < path_max
      → (remove_eob_device node (add_eob_device true 0 path node m).1
          ≡ (ok (count 0), with_entry gone (suc (suc m.locked)) (suc (suc m.unlocked))))
        × ((remove_eob_device node
              (remove_eob_device node (add_eob_device true 0 path node m).1).1).0
            ≡ fault)
  remove_eob_device-add short = rw (add_eob_device-stored short) (
      rw (remove-registered (device_at path) (suc m.locked) (suc m.unlocked))
        (refl, remove-gone (suc (suc m.locked)) (suc (suc m.unlocked))))

-- Whatever the kernel answers, adding a device leaves the entries of the other nodes.
add_eob_device-others :
    (alloc_netdev : Bool) (register_netdev : ℕ) (path : List ℕ) (node other : ℕ) (m : Module)
    → node ≢ other
    → get_elem? (add_eob_device alloc_netdev register_netdev path node m).1.ctx.devices other
      ≡ get_elem? m.ctx.devices other
unfolding add_eob_device add_eob_device_impl
add_eob_device-others false register_netdev path node other m ne = refl
add_eob_device-others true register_netdev path node other m ne =
    elim (Bool-cases (leb path_max (length path))) [
      | inl long ↦ rw long refl
      | inr fits ↦ rw fits (elim (Bool-cases (register_netdev == 0)) [
        | inl e ↦ rw e (elim (Bool-cases (ltb node (length m.ctx.devices))) [
          | inl h ↦ rw h (get_elem?-set_ne m.ctx.devices node other _ ne)
          | inr h ↦ rw h refl
        ])
        | inr e ↦ rw e refl
      ])
    ]
