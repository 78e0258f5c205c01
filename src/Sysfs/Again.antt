-- ===== src/Sysfs/Again.antt =====
-- modules/kmod/eoblock_sysfs.c: an interface that is deleted and added again. `del` leaves its network
-- device registered, so that the kernel refuses the second one.
use eoblock.Sysfs.{
  Code, failed, enodev, Entry, Iface, live, freed, State, Kernel, list_add_tail,
  eoblock_add_iface_kobj, eoblock_remove_iface,
}
use eoblock.Sysfs.Ifaces.{lives, names, NotIn, same_text_refl}
use eoblock.Sysfs.Orderly.{IsDocumented}
use eoblock.Sysfs.Registry.{
  holding, iface_of, Succeeds, eoblock_remove_iface-add, eoblock_add_iface_kobj-not_opened,
  eoblock_remove_iface-not_opened,
}
use eoblock.System.{Outcome, ok, fault}
use eoblock.Prelude.{
  ℕ, ◌<◌, ◌≡◌, ◌≢◌, refl, ap, arith, true, false, none, List, [], ◌∷◌, ◌++◌, length, inr, subst,
  leb, ltb, ◌==◌,
}

-- The calls of an `add` succeed up to the one for the network device.
pub record Begins (k : Kernel) : Type 0 where
  pub kcalloc : k.kcalloc ≡ true
  pub kobject_init_and_add : k.kobject_init_and_add ≡ 0
  pub sysfs_create_file : k.sysfs_create_file ≡ 0

not_twice : (n : List ℕ) (netdevs : List (List ℕ)) → ¬ (NotIn n (n ∷ netdevs))
unfolding NotIn
not_twice n netdevs h = cc (h.0, same_text_refl n)

list_add_tail-freed :
    (e : Entry) (is : List Iface) → list_add_tail e (lives is ++ (freed ∷ [])) ≡ none
list_add_tail-freed e [] = refl
list_add_tail-freed e (i ∷ []) = refl
list_add_tail-freed e (i ∷ j ∷ is) = rw (list_add_tail-freed e (j ∷ is)) refl

-- An `add` that gets to the list writes to the freed memory at its end.
add_to_freed :
    {k : Kernel} (b : Begins k) (n path : List ℕ) (is : List Iface)
    (kobjects netdevs : List (List ℕ))
    → length n < 256
    → length path < 256
    → (eoblock_add_iface_kobj k n path
        (record { ifaces = lives is ++ (freed ∷ []); kobjects = kobjects; netdevs = netdevs })).0
      ≡ fault
unfolding eoblock_add_iface_kobj
add_to_freed b n path is kobjects netdevs short short' =
    let a : leb 256 (length n) ≡ false = ground arith in
    let c : ltb 256 (length path) ≡ false = ground arith in
    let e : (length path == 256) ≡ false = ground arith in
    rw (b.kcalloc, a, c, e)
      (rw (b.kobject_init_and_add, b.sysfs_create_file)
        (rw (list_add_tail-freed (live (iface_of n path)) is) refl))

-- The texts of an `add` have less than 256 characters.
abbrev pub IsShort : List ℕ → List ℕ → Type 0
IsShort n path = (length n < 256) × (length path < 256)

module _ {k k' : Kernel} (g : Succeeds k) (b : Begins k') (n path path' : List ℕ) (is : List Iface)
    (netdevs : List (List ℕ)) (short : IsShort n path) (short' : IsShort n path')
    (fresh : NotIn n (names is)) where
  -- The module after `add` and `del` of the name, and after another `add` of it.
  abbrev pub deleted : State
  deleted = (eoblock_remove_iface n (eoblock_add_iface_kobj k n path (holding is netdevs)).1).1

  abbrev pub again : Outcome Code × State
  again = eoblock_add_iface_kobj k' n path' deleted

  deleted-holding : deleted ≡ holding is (n ∷ netdevs)
  deleted-holding =
      ap (λ r. r.1) (eoblock_remove_iface-add g n path is netdevs short.0 short.1 fresh)

  refused : IsDocumented k' n deleted → k'.register_netdev ≢ 0
  refused d e = not_twice n netdevs (subst (λ s. NotIn n s.netdevs) deleted-holding (d.netdev e))

  -- An interface that was added and deleted cannot be added again under a kernel that refuses a
  -- network device with the name of one that is registered: where all calls before that succeed, the
  -- second `add` returns -ENODEV, and leaves freed memory in the list, which the next `del` of a
  -- name that is not in the list reads, and the next `add` that gets to the list writes to. Names
  -- and paths have less than 256 characters, and no interface of the name was there.
  pub eoblock_add_iface_kobj-again :
      {k'' : Kernel} (m path'' : List ℕ)
      → IsDocumented k' n deleted
      → NotIn m (names is)
      → Begins k''
      → IsShort m path''
      → (again.0 ≡ ok (failed enodev))
        × ((eoblock_remove_iface m again.1).0 ≡ fault)
        × ((eoblock_add_iface_kobj k'' m path'' again.1).0 ≡ fault)
  eoblock_add_iface_kobj-again m path'' d missing b'' short'' =
      let fails = inr (refused d) in
      let e =
        eoblock_add_iface_kobj-not_opened n path' is (n ∷ netdevs) b.kcalloc b.kobject_init_and_add
          b.sysfs_create_file fails short'.0 short'.1 in
      rw deleted-holding (
        ap (λ r. r.0) e,
        eoblock_remove_iface-not_opened n m path' is (n ∷ netdevs) b.kcalloc b.kobject_init_and_add
            b.sysfs_create_file fails short'.0 short'.1 missing,
        rw e (add_to_freed b'' m path'' is _ (n ∷ netdevs) short''.0 short''.1),
      )
