-- ===== src/Sysfs/Mgmt.antt =====
-- modules/kmod/eoblock_sysfs.c: the text that is written to `mgmt`, and its commands.
use eoblock.Prelude.{
  ℕ, zero, suc, Bool, true, false, not, Option, none, some, List, [], ◌∷◌, length, ◌==◌,
  if◌then◌else◌,
}
use eoblock.System.{Outcome, ok, abort}
use eoblock.Sysfs.Words.{Ctype, eoblock_get_next_lexem, eoblock_get_next_token_str, same_word}
use eoblock.Sysfs.{
  Code, count, failed, enomem, einval, Kernel, State, Command, eoblock_add_iface_kobj,
  eoblock_remove_iface,
}

-- What the loop of eoblock_add_iface comes to: the fuel did not last, an error, or the device that
-- is named last.
pub data Params : Type 0 where
  exhausted : Params
  wrong : Params
  device : Option (List ℕ) → Params

abbrev pub nonempty : List ℕ → Bool
nonempty [] = false
nonempty (x ∷ xs) = true

abbrev pub add_word : List ℕ
add_word = 97 ∷ 100 ∷ 100 ∷ []

abbrev pub del_word : List ℕ
del_word = 100 ∷ 101 ∷ 108 ∷ []

module _ (c : Ctype) where
  -- The value of the parameter `dev=<value>`; `none` is -EINVAL.
  unfoldable pub param_value : List ℕ → Option (List ℕ)
  param_value param =
      let (p, rest) = eoblock_get_next_lexem c (some param) in
      let (pp, rest') = eoblock_get_next_lexem c rest in
      let (more, rest'') = eoblock_get_next_lexem c rest' in
      if not (nonempty p)
      then none
      else if not (nonempty pp)
      then none
      else if nonempty more
      then none
      else if same_word c (100 ∷ 101 ∷ 118 ∷ []) p
      then some pp
      else none

  abbrev on_value : Option (List ℕ) → (List ℕ → Params) → Params
  on_value none next = wrong
  on_value (some value) next = next value

  abbrev on_token : Option (List ℕ) → Option (List ℕ) → (List ℕ → Params) → Params
  on_token none dev_name next = device dev_name
  on_token (some param) dev_name next = on_value (param_value param) next

  -- The loop, on fuel.
  unfoldable pub read_params : ℕ → List ℕ → Option (List ℕ) → Params
  read_params zero params dev_name = exhausted
  read_params (suc n) params dev_name =
      let (token, rest) = eoblock_get_next_token_str params in
      on_token token dev_name (λ value. read_params n rest (some value))

  abbrev pub with_params : Kernel → List ℕ → Params → Command
  with_params k iface_name exhausted s = (abort, s)
  with_params k iface_name wrong s = (ok (failed einval), s)
  with_params k iface_name (device none) s = (ok (failed einval), s)
  with_params k iface_name (device (some dev_name)) s =
      eoblock_add_iface_kobj k iface_name dev_name s

  -- Every token takes a character, so that the length is fuel enough.
  unfoldable pub eoblock_add_iface : Kernel → List ℕ → List ℕ → Command
  eoblock_add_iface k iface_name params s =
      with_params k iface_name (read_params (suc (length params)) params none) s

  abbrev pub rest_of : Option (List ℕ) → List ℕ
  rest_of none = []
  rest_of (some s) = s

  unfoldable pub eoblock_iface_mgmt_cb : Kernel → List ℕ → Command
  eoblock_iface_mgmt_cb k buffer s =
      let (p, pp) = eoblock_get_next_lexem c (some buffer) in
      let (iface_name, pp') = eoblock_get_next_lexem c pp in
      let (more, pp'') = eoblock_get_next_lexem c pp' in
      if same_word c add_word p
      then (if not (nonempty iface_name)
          then (ok (failed einval), s)
          else eoblock_add_iface k iface_name (rest_of pp') s)
      else if same_word c del_word p
      then (if not (nonempty iface_name)
          then (ok (failed einval), s)
          else if nonempty more
          then (ok (failed einval), s)
          else eoblock_remove_iface iface_name s)
      else (ok (failed einval), s)

  abbrev pub counted : ℕ → Outcome Code × State → Outcome Code × State
  counted n (ok (count zero), s) = (ok (count n), s)
  counted n r = r

  -- `kasprintf("%.*s")` copies up to the count or the first NUL; it gives `none` for NULL.
  abbrev pub c_string : List ℕ → List ℕ
  c_string [] = []
  c_string (x ∷ xs) = let rest = c_string xs in if x == 0 then [] else x ∷ rest

  unfoldable pub eoblock_iface_mgmt_store : Kernel → Bool → List ℕ → Command
  eoblock_iface_mgmt_store k kasprintf buf s =
      if not kasprintf
      then (ok (failed enomem), s)
      else counted (length buf) (eoblock_iface_mgmt_cb k (c_string buf) s)
