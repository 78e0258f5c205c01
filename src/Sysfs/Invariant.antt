-- ===== src/Sysfs/Invariant.antt =====
-- Sequences of writes to `mgmt`, from the empty list of interfaces on.
use eoblock.Prelude.{
  ℕ, zero, suc, ◌≡◌, ◌≢◌, true, refl, arith, Bool, not, Option, none, some, List, [], length,
  if-elim,
}
use eoblock.System.{Outcome, ok, err, abort, fault}
use eoblock.Sysfs.Words.{Ctype, eoblock_get_next_lexem, same_word}
use eoblock.Sysfs.{Code, count, failed, Kernel, State, eoblock_add_iface_kobj}
use eoblock.Sysfs.Mgmt.{
  Params, exhausted, wrong, device, read_params, with_params, eoblock_add_iface, add_word, del_word,
  nonempty, rest_of, eoblock_iface_mgmt_cb, c_string, counted, eoblock_iface_mgmt_store,
}
use eoblock.Sysfs.Parse.{read_params-enough}
use eoblock.Sysfs.Ifaces.{Distinct}
use eoblock.Sysfs.Orderly.{
  Registered, IsOrderly, Answers, NotDeleted, Keeps, Keeps-le, eoblock_add_iface_kobj-Keeps,
  eoblock_remove_iface-Keeps,
}
use eoblock.Sysfs.Bounds.{Bounded, get_next_lexem-le, read_params-le, rest_of-le, c_string-le}

module _ (c : Ctype) where
  module _ {k : Kernel} (n : List ℕ) {s : State} (o : IsOrderly s) (a : Answers k n s)
      (new_name : NotDeleted n s) where
    with_params-Keeps :
        (b : ℕ) (p : Params) → p ≢ exhausted → Bounded c b p → Keeps b (with_params c k n p s)
    with_params-Keeps b exhausted enough h = absurd (enough refl)
    with_params-Keeps b wrong enough h = (o, λ _. tt)
    with_params-Keeps b (device none) enough h = (o, λ _. tt)
    with_params-Keeps b (device (some path)) enough h =
        Keeps-le (eoblock_add_iface_kobj k n path s) h
          (eoblock_add_iface_kobj-Keeps n path o a new_name)

    add_iface-Keeps : (params : List ℕ) → Keeps (length params) (eoblock_add_iface c k n params s)
    unfolding eoblock_add_iface
    add_iface-Keeps params =
        with_params-Keeps (length params) (read_params c (suc (length params)) params none)
          (read_params-enough c (suc (length params)) params none (omega arith))
          (read_params-le c (suc (length params)) (length params) params none (omega arith)
            (omega arith))

  -- The second word of a text.
  abbrev second_word : List ℕ → List ℕ
  second_word text = (eoblock_get_next_lexem c (eoblock_get_next_lexem c (some text)).1).0

  -- The command `add`.
  abbrev adds : List ℕ → Bool
  adds text = same_word c add_word (eoblock_get_next_lexem c (some text)).0

  mgmt_cb-Keeps :
      {k : Kernel} (text : List ℕ) {s : State}
      → IsOrderly s
      → Answers k (second_word text) s
      → (adds text ≡ true → NotDeleted (second_word text) s)
      → Keeps (length text) (eoblock_iface_mgmt_cb c k text s)
  unfolding eoblock_iface_mgmt_cb
  mgmt_cb-Keeps {k} text {s} o a new_name =
      let P : Outcome Code × State → Type 0 = Keeps (length text) in
      let pp : Option (List ℕ) = (eoblock_get_next_lexem c (some text)).1 in
      let pp' : Option (List ℕ) = (eoblock_get_next_lexem c pp).1 in
      let l = get_next_lexem-le c (some text) in
      let l' = get_next_lexem-le c pp in
      let p : List ℕ = (eoblock_get_next_lexem c (some text)).0 in
      let name : List ℕ = second_word text in
      if-elim P (same_word c add_word p)
        (λ named.
          if-elim P (not (nonempty name)) (λ _. (o, λ _. tt))
            (λ _.
              Keeps-le (eoblock_add_iface c k name (rest_of c pp') s)
                (omega (arith, rest_of-le c pp'))
                (add_iface-Keeps name o a (new_name named) (rest_of c pp'))))
        (λ _.
          if-elim P (same_word c del_word p)
            (λ _.
              if-elim P (not (nonempty name)) (λ _. (o, λ _. tt))
                (λ _.
                  if-elim P (nonempty (eoblock_get_next_lexem c pp').0) (λ _. (o, λ _. tt))
                    (λ _. eoblock_remove_iface-Keeps name (length text) o)))
            (λ _. (o, λ _. tt)))

  counted-Keeps : (m n : ℕ) (r : Outcome Code × State) → Keeps n r → Keeps n (counted c m r)
  counted-Keeps m n (ok (count zero), s) h = h
  counted-Keeps m n (ok (count (suc j)), s) h = h
  counted-Keeps m n (ok (failed e), s) h = h
  counted-Keeps m n (err e, s) h = h
  counted-Keeps m n (abort, s) h = h
  counted-Keeps m n (fault, s) h = h

  -- The name in the text of a command.
  abbrev pub named_in : List ℕ → List ℕ
  named_in buf = second_word (c_string c buf)

  -- An `add` does not name an interface again that was deleted.
  abbrev pub Renews : List ℕ → State → Type 0
  Renews buf s = adds (c_string c buf) ≡ true → NotDeleted (named_in buf) s

  pub mgmt_store-Keeps :
      {k : Kernel} (allocated : Bool) (buf : List ℕ) {s : State}
      → IsOrderly s
      → Answers k (named_in buf) s
      → Renews buf s
      → Keeps (length buf) (eoblock_iface_mgmt_store c k allocated buf s)
  unfolding eoblock_iface_mgmt_store
  mgmt_store-Keeps {k} allocated buf {s} o a new_name =
      if-elim (Keeps (length buf)) (not allocated) (λ _. (o, λ _. tt))
        (λ _.
          counted-Keeps (length buf) (length buf) (eoblock_iface_mgmt_cb c k (c_string c buf) s) (
            Keeps-le (eoblock_iface_mgmt_cb c k (c_string c buf) s) (c_string-le c buf)
              (mgmt_cb-Keeps (c_string c buf) o a new_name)))

  -- A write to `mgmt` that adds no name again, and that the kernel answers as documented, with a
  -- network device where the name is not registered.
  pub data Step : State → State → Type 0 where
    store :
        (k : Kernel) (allocated : Bool) (buf : List ℕ) (s : State)
        → Answers k (named_in buf) s
        → Renews buf s
        → Step s (eoblock_iface_mgmt_store c k allocated buf s).1

  pub data Reach (s : State) : State → Type 0 where
    here : Reach s s
    after : {t u : State} → Reach s t → Step t u → Reach s u

-- The module starts with no interface.
abbrev pub no_ifaces : State
no_ifaces = record { ifaces = []; kobjects = []; netdevs = [] }

pub no_ifaces-IsOrderly : IsOrderly no_ifaces
unfolding Distinct Registered
no_ifaces-IsOrderly = record {
  entries = [];
  linked = refl;
  named = refl;
  distinct = tt;
  registered = tt;
}
