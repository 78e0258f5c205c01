-- ===== src/System.antt =====
-- The machine that lib/liboblock.c runs on: one device as its bytes, what the next system calls
-- and allocations will do, and how a C function can end.
pub mod Disk
pub mod Offline
use eoblock.Prelude.{
  ℕ, zero, suc, ◌+◌, Bool, true, false, Option, none, some, List, [], ◌∷◌, ◌++◌, take, drop, length,
  replicate, ◌==◌, if◌then◌else◌,
}
use eoblock.Errors.{eob_io, is_eob_err}
use eoblock.System.Disk.{read_at, write_at}

-- How a call ends: it returns a value, it returns an error code, an assertion stops the program
-- (VERIFY, NOT_IMPLEMENTED, UNREACHABLE_CODE), or its behaviour is undefined (an access out of
-- bounds, a division by zero).
pub data Outcome {ℓ} (A : Type ℓ) : Type ℓ where
  ok : A → Outcome A
  err : ℕ → Outcome A
  abort : Outcome A
  fault : Outcome A

-- A write by another node of the cluster.
pub record Write : Type 0 where
  pub offset : ℕ
  pub bytes : List ℕ

-- A system call on the device fails, moves at most so many bytes, or does all that it can.
pub data Effect : Type 0 where
  fail : Effect
  short : ℕ → Effect
  full : Effect

-- What happens at the next system call: first the other nodes' writes, then the call.
pub record Event : Type 0 where
  pub others : List Write
  pub effect : Effect

-- What an allocation gives: NULL, or memory that holds old bytes.
pub data Block : Type 0 where
  null : Block
  stale : List ℕ → Block

-- Past the end of `events` no other node writes and every call does all that it can; past the end
-- of `heap` every allocation gives zeroed memory.
pub record World : Type 0 where
  pub disk : List ℕ
  pub events : List Event
  pub heap : List Block

abbrev pub M {ℓ} : Type ℓ → Type ℓ
M A = World → Outcome A × World

module _ {ℓ κ} {A : Type ℓ} {B : Type κ} where
  abbrev pub continue : Outcome A → (A → M B) → M B
  continue (ok a) f w = f a w
  continue (err e) f w = (err e, w)
  continue abort f w = (abort, w)
  continue fault f w = (fault, w)

  infixl 5 ◌>>=◌ ◌>>◌
  abbrev pub ◌>>=◌ : M A → (A → M B) → M B
  ◌>>=◌ m f w = let (r, w') = m w in continue r f w'

  abbrev pub ◌>>◌ : M A → M B → M B
  m >> n = m >>= λ _. n

module _ {ℓ} {A : Type ℓ} where
  abbrev pub pure : A → M A
  pure a w = (ok a, w)

  abbrev pub return_err : ℕ → M A
  return_err e w = (err e, w)

  abbrev pub die : M A
  die w = (abort, w)

  abbrev pub undefined : M A
  undefined w = (fault, w)

  -- SET_ERR: the code is logged by the text of `eob_strerror`, then returned.
  abbrev pub set_err : ℕ → M A
  set_err e = if is_eob_err e then return_err e else die

  -- SET_IO_ERR logs `errno` and not the code.
  abbrev pub set_io_err : M A
  set_io_err = return_err eob_io

-- EOB_VERIFY
abbrev pub verify : Bool → M (Unit {0})
verify true w = (ok tt, w)
verify false w = (abort, w)

-- An access that the language allows only under a condition.
abbrev pub in_bounds : Bool → M (Unit {0})
in_bounds true w = (ok tt, w)
in_bounds false w = (fault, w)

-- Memory of `n` bytes with the given first ones.
abbrev pub fit : ℕ → List ℕ → List ℕ
fit n bs = take n (bs ++ replicate n 0)

-- `malloc(n)`
unfoldable pub malloc : ℕ → M (Option (List ℕ))
malloc n w = elim w.heap [
  | [] ↦ (ok (some (replicate n 0)), w)
  | null ∷ rest ↦ (ok none, record w { heap = rest })
  | stale bs ∷ rest ↦ (ok (some (fit n bs)), record w { heap = rest })
]

-- `calloc` of an object: false is NULL.
unfoldable pub calloc : M Bool
calloc w = elim w.heap [
  | [] ↦ (ok true, w)
  | null ∷ rest ↦ (ok false, record w { heap = rest })
  | stale bs ∷ rest ↦ (ok true, record w { heap = rest })
]

abbrev pub apply_writes : List Write → List ℕ → List ℕ
apply_writes [] d = d
apply_writes (x ∷ xs) d = apply_writes xs (write_at x.offset x.bytes d)

-- The bytes that a call moves; `none` is the return value -1.
abbrev pub moved : Effect → List ℕ → Option (List ℕ)
moved fail bs = none
moved (short n) bs = some (take n bs)
moved full bs = some bs

abbrev pub quiet : Event
quiet = record { others = []; effect = full }

abbrev next_event : List Event → Event × List Event
next_event [] = (quiet, [])
next_event (e ∷ es) = (e, es)

-- `pread` of `n` bytes: at most those up to the end of the device.
unfoldable pub pread : ℕ → ℕ → M (Option (List ℕ))
pread n offset w =
    let (e, es) = next_event w.events in
    let d = apply_writes e.others w.disk in
    (ok (moved e.effect (read_at offset n d)), record w { disk = d; events = es })

abbrev pub written : ℕ → Option (List ℕ) → List ℕ → Option ℕ × List ℕ
written offset none d = (none, d)
written offset (some bs) d = (some (length bs), write_at offset bs d)

-- `pwrite` and `pwritev` of the bytes.
unfoldable pub pwrite : ℕ → List ℕ → M (Option ℕ)
pwrite offset bs w =
    let (e, es) = next_event w.events in
    let (n, d) = written offset (moved e.effect bs) (apply_writes e.others w.disk) in
    (ok n, record w { disk = d; events = es })

-- No other node writes, no call fails and memory does not run out.
abbrev pub calm : List ℕ → World
calm d = record { disk = d; events = []; heap = [] }

-- The same, behind `n` system calls on which nothing happens.
abbrev pub quiets : ℕ → List Event → List Event
quiets n es = replicate n quiet ++ es

-- `if (0 != (rv = m)) return SET_ERR_TRACE(rv);`: the code is logged and returned.
abbrev pub retrace {ℓ} : {A : Type ℓ} → Outcome A × World → Outcome A × World
retrace (ok a, w) = (ok a, w)
retrace (err e, w) = set_err e w
retrace (abort, w) = (abort, w)
retrace (fault, w) = (fault, w)

abbrev pub traced {ℓ} : {A : Type ℓ} → M A → M A
traced m w = retrace (m w)

-- `if (rv) return SET_ERR_TRACE(rv);`
abbrev pub trace_rv : ℕ → M (Unit {0})
trace_rv rv = if rv == 0 then pure tt else set_err rv
