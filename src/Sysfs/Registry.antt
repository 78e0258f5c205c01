-- ===== src/Sysfs/Registry.antt =====
-- What `add` and `del` do to the dictionary of interfaces, and what a device that does not open does.
use eoblock.Prelude.{
  ℕ, ◌<◌, ◌≡◌, ◌≢◌, refl, ap, ◌∙◌, arith, true, false, Option, none, some, List, [], ◌∷◌, ◌++◌,
  length, inl, inr, ◌⊎◌, Bool-cases, Option-cases, leb, ltb, ◌==◌,
}
use eoblock.System.{Outcome, ok, fault}
use eoblock.Sysfs.{
  Code, count, failed, enoent, enodev, Iface, live, freed, State, Kernel, name_size,
  eob_device_open, eob_device_close, without, eoblock_add_iface_kobj, broken, search_iface,
  eoblock_remove_iface,
}
use eoblock.Sysfs.Ifaces.{
  lives, names, find, erase, NotIn, search_iface-lives, without-names, find-name, find-snoc,
  erase-snoc, list_add_tail-lives, lives-append, names-append,
}

-- The state that holds a dictionary.
abbrev pub holding : List Iface → List (List ℕ) → State
holding is netdevs = record { ifaces = lives is; kobjects = names is; netdevs = netdevs }

abbrev deleted : Option Iface → List Iface → List Iface → List (List ℕ) → Outcome Code × State
deleted none is js netdevs = (ok (failed enoent), holding is netdevs)
deleted (some i) is js netdevs = (ok (count 0), holding js netdevs)

-- What `del` should do to it.
abbrev pub after_del : List ℕ → List Iface → List (List ℕ) → Outcome Code × State
after_del n is netdevs = deleted (find n is) is (erase n is) netdevs

-- `del` takes the interface with the name out of the dictionary, or reports that there is none. It
-- leaves the network devices.
pub eoblock_remove_iface-holding :
    (n : List ℕ) (is : List Iface) (netdevs : List (List ℕ))
    → eoblock_remove_iface n (holding is netdevs) ≡ after_del n is netdevs
unfolding eoblock_remove_iface eob_device_close
eoblock_remove_iface-holding n is netdevs =
    rw (search_iface-lives n is) (elim (Option-cases (find n is)) [
      | inl missing ↦ rw missing refl
      | inr (i, e) ↦
          let m : i.name ≡ n = find-name n i is e in rw (e, m) (rw (without-names n is) refl)
    ])

abbrev pub iface_of : List ℕ → List ℕ → Iface
iface_of n path = record { name = n; device_name = path }

-- What the kernel answers where no call fails.
pub record Succeeds (k : Kernel) : Type 0 where
  pub kcalloc : k.kcalloc ≡ true
  pub kobject_init_and_add : k.kobject_init_and_add ≡ 0
  pub sysfs_create_file : k.sysfs_create_file ≡ 0
  pub alloc_netdev : k.alloc_netdev ≡ true
  pub register_netdev : k.register_netdev ≡ 0

module _ {k : Kernel} (g : Succeeds k) where
  -- `add` puts the interface at the end of the dictionary and registers its network device, where
  -- no call fails, the name has less than 256 characters and the path less than 256.
  eoblock_add_iface_kobj-holding :
      (n path : List ℕ) (is : List Iface) (netdevs : List (List ℕ))
      → length n < 256
      → length path < 256
      → eoblock_add_iface_kobj k n path (holding is netdevs)
        ≡ (ok (count 0), holding (is ++ (iface_of n path ∷ [])) (n ∷ netdevs))
  unfolding eoblock_add_iface_kobj eob_device_open
  eoblock_add_iface_kobj-holding n path is netdevs short short' =
      let i : Iface = iface_of n path in
      let a : leb name_size (length n) ≡ false = ground arith in
      let b : ltb name_size (length path) ≡ false = ground arith in
      let e : (length path == name_size) ≡ false = ground arith in
      rw (g.kcalloc, a, b, e)
        (rw (g.kobject_init_and_add, g.sysfs_create_file)
          (rw (list_add_tail-lives (live i) is, list_add_tail-lives freed is)
            (rw (g.alloc_netdev, g.register_netdev)
              (rw (lives-append is (i ∷ []), names-append is (i ∷ [])) refl))))

  -- `del` after `add` of a name that was not there gives the dictionary back, where no call of the
  -- kernel fails and name and path have less than 256 characters. The network device stays
  -- registered.
  pub eoblock_remove_iface-add :
      (n path : List ℕ) (is : List Iface) (netdevs : List (List ℕ))
      → length n < 256
      → length path < 256
      → NotIn n (names is)
      → eoblock_remove_iface n (eoblock_add_iface_kobj k n path (holding is netdevs)).1
        ≡ (ok (count 0), holding is (n ∷ netdevs))
  eoblock_remove_iface-add n path is netdevs short short' fresh =
      let i : Iface = iface_of n path in
      rw (eoblock_add_iface_kobj-holding n path is netdevs short short') (
        rw (eoblock_remove_iface-holding n (is ++ (i ∷ [])) (n ∷ netdevs)) (
          ap (λ o. deleted o (is ++ (i ∷ [])) (erase n (is ++ (i ∷ []))) (n ∷ netdevs))
            (find-snoc i is fresh)
          ∙ ap (λ js. (ok (count 0), holding js (n ∷ netdevs))) (erase-snoc i is fresh)))

-- `del` of a name without an interface reaches freed memory where the list ends in it.
search_iface-freed :
    (n : List ℕ) (is : List Iface)
    → NotIn n (names is)
    → search_iface n (lives is ++ (freed ∷ [])) ≡ broken
unfolding NotIn
search_iface-freed n [] h = refl
search_iface-freed n (i ∷ is) (h, hs) = rw (h, search_iface-freed n is hs) refl

open_refused :
    (k : Kernel) (n : List ℕ) (s : State)
    → (k.alloc_netdev ≡ false) ⊎ (k.register_netdev ≢ 0)
    → eob_device_open k n s ≡ (some enodev, s)
unfolding eob_device_open
open_refused k n s (inl no_memory) = rw no_memory refl
open_refused k n s (inr refused) =
    let r : (k.register_netdev == 0) ≡ false = ground arith in
    elim (Bool-cases k.alloc_netdev) [
      | inl there ↦ rw (there, r) refl
      | inr missing ↦ rw missing refl
    ]

-- Where all calls up to it succeed and the network device cannot be had, `add` returns -ENODEV and
-- leaves freed memory at the end of the list. Name and path have less than 256 characters.
pub eoblock_add_iface_kobj-not_opened :
    {k : Kernel} (n path : List ℕ) (is : List Iface) (netdevs : List (List ℕ))
    → k.kcalloc ≡ true
    → k.kobject_init_and_add ≡ 0
    → k.sysfs_create_file ≡ 0
    → (k.alloc_netdev ≡ false) ⊎ (k.register_netdev ≢ 0)
    → length n < 256
    → length path < 256
    → eoblock_add_iface_kobj k n path (holding is netdevs) ≡ (
      ok (failed enodev),
      record {
        ifaces = lives is ++ (freed ∷ []);
        kobjects = without n (names is ++ (n ∷ []));
        netdevs = netdevs;
      },
    )
unfolding eoblock_add_iface_kobj
eoblock_add_iface_kobj-not_opened {k} n path is netdevs c o f fails short short' =
    let i : Iface = iface_of n path in
    let a : leb name_size (length n) ≡ false = ground arith in
    let b : ltb name_size (length path) ≡ false = ground arith in
    let e : (length path == name_size) ≡ false = ground arith in
    rw (c, a, b, e)
      (rw (o, f)
        (rw (list_add_tail-lives (live i) is, list_add_tail-lives freed is)
          (rw
            (open_refused
              (record k { kcalloc = true; kobject_init_and_add = 0; sysfs_create_file = 0 }) n _
              fails)
            refl)))

-- After an `add` of such a name and path, in which all calls succeed up to the network device that
-- cannot be had, a `del` of a name that is not in the dictionary reads freed memory.
pub eoblock_remove_iface-not_opened :
    {k : Kernel} (n m path : List ℕ) (is : List Iface) (netdevs : List (List ℕ))
    → k.kcalloc ≡ true
    → k.kobject_init_and_add ≡ 0
    → k.sysfs_create_file ≡ 0
    → (k.alloc_netdev ≡ false) ⊎ (k.register_netdev ≢ 0)
    → length n < 256
    → length path < 256
    → NotIn m (names is)
    → (eoblock_remove_iface m (eoblock_add_iface_kobj k n path (holding is netdevs)).1).0 ≡ fault
unfolding eoblock_remove_iface
eoblock_remove_iface-not_opened n m path is netdevs c o f fails short short' fresh =
    rw (eoblock_add_iface_kobj-not_opened n path is netdevs c o f fails short short')
      (rw (search_iface-freed m is fresh) refl)
