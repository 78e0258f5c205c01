-- ===== src/Sysfs/Orderly.antt =====
-- A list of interfaces that no command has broken: every entry is an interface, no name is there
-- twice, the kobjects have the same names, and every interface has its network device.
use eoblock.Prelude.{
  ℕ, ◌<◌, ◌≤◌, ◌≡◌, refl, sym, arith, true, not, List, [], ◌∷◌, ◌++◌, length, inl, inr, ◌⊎◌,
  Bool-cases, Option-cases, leb, ltb, ◌==◌, if-elim, subst,
}
use eoblock.System.{Outcome, ok}
use eoblock.Sysfs.Words.{same_text}
use eoblock.Sysfs.{
  Code, Iface, live, freed, State, Kernel, eob_device_open, eoblock_add_iface_kobj,
  eoblock_remove_iface,
}
use eoblock.Sysfs.Ifaces.{
  lives, names, find, erase, NotIn, Distinct, erase-Distinct, snoc-Distinct, list_add_tail-lives,
  lives-append, names-append, same_text_refl,
}
use eoblock.Sysfs.Registry.{holding, iface_of, eoblock_remove_iface-holding}

-- A network device of the name is registered.
unfoldable pub IsIn : List ℕ → List (List ℕ) → Type 0
IsIn n [] = ⊥
IsIn n (x ∷ xs) = (same_text x n ≡ true) ⊎ IsIn n xs

unfoldable pub Registered : List (List ℕ) → List (List ℕ) → Type 0
Registered [] netdevs = Unit
Registered (n ∷ ns) netdevs = IsIn n netdevs × Registered ns netdevs

pub record IsOrderly (s : State) : Type 0 where
  pub entries : List Iface
  pub linked : s.ifaces ≡ lives entries
  pub named : s.kobjects ≡ names entries
  pub distinct : Distinct (names entries)
  pub registered : Registered (names entries) s.netdevs

IsOrderly-holding : {s : State} (o : IsOrderly s) → s ≡ holding o.entries s.netdevs
IsOrderly-holding {s} o =
    λ i. record { ifaces = o.linked i; kobjects = o.named i; netdevs = s.netdevs }

Registered-weaken :
    (m : List ℕ) (ns netdevs : List (List ℕ)) → Registered ns netdevs → Registered ns (m ∷ netdevs)
unfolding Registered IsIn
Registered-weaken m [] netdevs h = tt
Registered-weaken m (n ∷ ns) netdevs (h, hs) = (inr h, Registered-weaken m ns netdevs hs)

Registered-snoc :
    (n : List ℕ) (ns netdevs : List (List ℕ))
    → Registered ns netdevs
    → Registered (ns ++ (n ∷ [])) (n ∷ netdevs)
unfolding Registered IsIn
Registered-snoc n [] netdevs h = (inl (same_text_refl n), tt)
Registered-snoc n (m ∷ ns) netdevs (h, hs) = (inr h, Registered-snoc n ns netdevs hs)

Registered-erase :
    (n : List ℕ) (is : List Iface) (netdevs : List (List ℕ))
    → Registered (names is) netdevs
    → Registered (names (erase n is)) netdevs
unfolding Registered
Registered-erase n [] netdevs h = tt
Registered-erase n (i ∷ is) netdevs (h, hs) = elim (Bool-cases (same_text i.name n)) [
  | inl same ↦ rw same hs
  | inr other ↦ rw other (h, Registered-erase n is netdevs hs)
]

-- The call returns a code; it reaches no freed memory and overruns nothing.
abbrev pub Returns : Outcome Code → Type 0
Returns (ok r) = Unit
Returns _ = ⊥

-- A command leaves an orderly list, and returns under a condition on the size of its text.
abbrev pub Keeps : ℕ → Outcome Code × State → Type 0
Keeps size r = IsOrderly r.1 × (size < 256 → Returns r.0)

pub Keeps-le : {m n : ℕ} (r : Outcome Code × State) → m ≤ n → Keeps m r → Keeps n r
Keeps-le r le (o, h) = (o, λ small. h (omega arith))

-- The kernel answers an `add` of the name as its documentation says: kobject_init_and_add refuses a
-- name that is there, and register_netdev the name of a device that is registered.
pub record IsDocumented (k : Kernel) (name : List ℕ) (s : State) : Type 0 where
  pub kobject : k.kobject_init_and_add ≡ 0 → NotIn name s.kobjects
  pub netdev : k.register_netdev ≡ 0 → NotIn name s.netdevs

-- It does so, and gives a network device of a name that is not registered.
pub record Answers (k : Kernel) (name : List ℕ) (s : State) : Type 0 where
  pub documented : IsDocumented k name s
  pub alloc_netdev : k.alloc_netdev ≡ true
  pub available : NotIn name s.netdevs → k.register_netdev ≡ 0

-- The name is not that of an interface that was deleted, whose network device is still registered.
abbrev pub NotDeleted : List ℕ → State → Type 0
NotDeleted name s = NotIn name s.kobjects → NotIn name s.netdevs

module _ (is : List Iface) (netdevs : List (List ℕ)) (distinct : Distinct (names is))
    (registered : Registered (names is) netdevs) where
  unchanged : IsOrderly (holding is netdevs)
  unchanged = record {
    entries = is;
    linked = refl;
    named = refl;
    distinct = distinct;
    registered = registered;
  }

  snoc-IsOrderly :
      (n path : List ℕ)
      → NotIn n (names is)
      → IsOrderly (record {
        ifaces = lives is ++ (live (iface_of n path) ∷ []);
        kobjects = names is ++ (n ∷ []);
        netdevs = n ∷ netdevs;
      })
  snoc-IsOrderly n path fresh =
      let i : Iface = iface_of n path in
      record {
        entries = is ++ (i ∷ []);
        linked = sym (lives-append is (i ∷ []));
        named = sym (names-append is (i ∷ []));
        distinct = snoc-Distinct i is distinct fresh;
        registered =
            rw (names-append is (i ∷ [])) (Registered-snoc n (names is) netdevs registered);
      }

  erased : (n : List ℕ) → IsOrderly (holding (erase n is) netdevs)
  erased n = record {
    entries = erase n is;
    linked = refl;
    named = refl;
    distinct = erase-Distinct n is distinct;
    registered = Registered-erase n is netdevs registered;
  }

  add_iface_kobj-Keeps :
      {k : Kernel} (n path : List ℕ)
      → Answers k n (holding is netdevs)
      → NotDeleted n (holding is netdevs)
      → Keeps (length path) (eoblock_add_iface_kobj k n path (holding is netdevs))
  unfolding eoblock_add_iface_kobj eob_device_open
  add_iface_kobj-Keeps {k} n path a new_name =
      let P : Outcome Code × State → Type 0 = Keeps (length path) in
      if-elim P (not k.kcalloc) (λ _. (unchanged, λ _. tt))
        (λ _.
          if-elim P (leb 256 (length n)) (λ _. (unchanged, λ _. tt))
            (λ _.
              if-elim P (ltb 256 (length path)) (λ _. (unchanged, λ _. tt))
                (λ _.
                  if-elim P (length path == 256) (λ e. (unchanged, λ h. absurd (ground arith)))
                    (λ _.
                      if-elim P (not (k.kobject_init_and_add == 0)) (λ _. (unchanged, λ _. tt))
                        (λ new.
                          if-elim P (not (k.sysfs_create_file == 0)) (λ _. (unchanged, λ _. tt))
                            (λ _.
                              let fresh = a.documented.kobject (ground arith) in
                              rw
                                (
                                  list_add_tail-lives (live (iface_of n path)) is,
                                  list_add_tail-lives freed is,
                                )
                                (rw (a.alloc_netdev, a.available (new_name fresh))
                                  (snoc-IsOrderly n path fresh, λ _. tt))))))))

  remove_iface-Keeps :
      (n : List ℕ) (size : ℕ) → Keeps size (eoblock_remove_iface n (holding is netdevs))
  remove_iface-Keeps n size =
      rw (eoblock_remove_iface-holding n is netdevs) (elim (Option-cases (find n is)) [
        | inl missing ↦ rw missing (unchanged, λ _. tt)
        | inr (i, e) ↦ rw e (erased n, λ _. tt)
      ])

-- Adding keeps the list orderly, and returns where the path has less than 256 characters.
pub eoblock_add_iface_kobj-Keeps :
    {k : Kernel} (n path : List ℕ) {s : State}
    → IsOrderly s
    → Answers k n s
    → NotDeleted n s
    → Keeps (length path) (eoblock_add_iface_kobj k n path s)
eoblock_add_iface_kobj-Keeps {k} n path {s} o a new_name =
    subst
      (λ t.
        Answers k n t → NotDeleted n t → Keeps (length path) (eoblock_add_iface_kobj k n path t))
      (sym (IsOrderly-holding o))
      (add_iface_kobj-Keeps o.entries s.netdevs o.distinct o.registered n path) a new_name

pub eoblock_remove_iface-Keeps :
    (n : List ℕ) (size : ℕ) {s : State} → IsOrderly s → Keeps size (eoblock_remove_iface n s)
eoblock_remove_iface-Keeps n size {s} o =
    subst (λ t. Keeps size (eoblock_remove_iface n t)) (sym (IsOrderly-holding o))
      (remove_iface-Keeps o.entries s.netdevs o.distinct o.registered n size)
