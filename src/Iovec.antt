-- ===== src/Iovec.antt =====
-- The buffers of lib/liboblock.c: `eob_iovec_*`, `memdup`. An iovec is its bytes, `iov_len` of them.
use eoblock.Prelude.{ℕ, zero, Option, none, some, List, [], ◌∷◌, length, replicate, ltb}
use eoblock.Errors.{eob_nomem}
use eoblock.System.{
  M, Block, null, stale, fit, malloc, pure, set_err, undefined, verify, traced, ◌>>=◌, ◌>>◌, ok,
}

-- `malloc`, or the error code of no_memory_trace.
abbrev pub or_nomem : Option (List ℕ) → M (List ℕ)
or_nomem none = set_err eob_nomem
or_nomem (some bs) = pure bs

unfoldable pub eob_iovec_alloc : ℕ → M (List ℕ)
unfolding malloc
eob_iovec_alloc n = do p ← malloc n; or_nomem p

-- `struct iovec`; a base of `none` is NULL, and any other has `iov_len` bytes.
pub record Iovec : Type 0 where
  pub iov_len : ℕ
  pub iov_base : Option (List ℕ)

abbrev pub iovec_of : List ℕ → Iovec
iovec_of bs = record { iov_len = length bs; iov_base = some bs }

-- `memcpy` of all bytes, which NULL has not.
abbrev pub contents : Option (List ℕ) → M (List ℕ)
contents none = undefined
contents (some bs) = pure bs

-- The copy overwrites all of the new memory. The code of the inner failure is logged once more.
unfoldable pub eob_iovec_copy : Iovec → M (List ℕ)
unfolding eob_iovec_alloc
eob_iovec_copy from = do traced (eob_iovec_alloc from.iov_len); contents from.iov_base

-- `none` is NULL.
unfoldable pub memdup : List ℕ → M (Option (List ℕ))
unfolding malloc
memdup bs = do r ← malloc (length bs); (elim r [ none ↦ pure none | some p ↦ pure (some bs) ])

-- `while(NULL == (p = malloc(n)));`: the allocations that fail are passed over.
unfoldable pub first_block : ℕ → List Block → List ℕ × List Block
first_block n [] = (replicate n 0, [])
first_block n (null ∷ rest) = first_block n rest
first_block n (stale bs ∷ rest) = (fit n bs, rest)

unfoldable pub malloc_until : ℕ → M (List ℕ)
unfolding first_block
malloc_until n w = let (bs, rest) = first_block n w.heap in (ok bs, record w { heap = rest })

unfoldable pub eob_iovec_alloc_wait : ℕ → M (List ℕ)
unfolding malloc_until
eob_iovec_alloc_wait n = do verify (ltb zero n); malloc_until n

unfoldable pub eob_iovec_calloc_wait : ℕ → M (List ℕ)
unfolding malloc_until
eob_iovec_calloc_wait n = do verify (ltb zero n); malloc_until n; pure (replicate n 0)
