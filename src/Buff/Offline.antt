-- ===== src/Buff/Offline.antt =====
-- What the buffers of a transfer hold before the device is written, whatever the allocations give.
use eoblock.System.{World, Outcome, M, Block, null, stale}
use eoblock.System.Disk.{overlay, length-overlay}
use eoblock.System.Offline.{
  Ends, returns, fails, aborts, faults, Offline, Any, Offline-pure, Offline-set_err,
  Offline-undefined, Offline-traced, Offline-bind, Offline-verify, Offline-in_bounds,
  Offline-malloc, Offline-calloc, length-fit,
}
use eoblock.Errors.{eob_nomem}
use eoblock.Macros.{u64, p2_roundup}
use eoblock.Iovec.{
  Iovec, or_nomem, contents, first_block, malloc_until, eob_iovec_alloc, eob_iovec_copy,
  eob_iovec_alloc_wait,
}
use eoblock.Device.{Device}
use eoblock.Buff.{
  Buff, new_buff, enomem, attempt, caught, table_of, alloc_table, pieces, flat, piece_len,
  fill_pieces, eob_buff_map_data_to_phys, buff_with, buff_from, eob_buff_create, or_no_memory,
}
use eoblock.Prelude.{
  ℕ, zero, suc, ◌+◌, ◌*◌, ◌/◌, ◌≤◌, ◌≡◌, refl, ap, ◌∙◌, arith, not, ◌&&◌, Option, none, some, List,
  [], ◌∷◌, ◌++◌, length, take, drop, length-take, length-append, length-replicate, leb, ltb,
  if-elim,
}

length-first_block : (n : ℕ) (heap : List Block) → length (first_block n heap).0 ≡ n
unfolding first_block
length-first_block n [] = length-replicate {A = ℕ} n 0
length-first_block n (null ∷ rest) = length-first_block n rest
length-first_block n (stale bs ∷ rest) = length-fit n bs

abbrev HasLength : ℕ → List ℕ → Type 0
HasLength n bs = length bs ≡ n

Offline-malloc_until : (n : ℕ) → Offline (HasLength n) (malloc_until n)
unfolding malloc_until
Offline-malloc_until n = record {
  at = λ w. returns (record { disk = refl; events = refl }) (length-first_block n w.heap);
}

Offline-alloc_wait : (n : ℕ) → Offline (HasLength n) (eob_iovec_alloc_wait n)
unfolding eob_iovec_alloc_wait
Offline-alloc_wait n = Offline-bind (Offline-verify (ltb 0 n)) (λ _ _. Offline-malloc_until n)

Offline-or_nomem : (o : Option (List ℕ)) → Offline Any (or_nomem o)
Offline-or_nomem none = Offline-set_err eob_nomem
Offline-or_nomem (some bs) = Offline-pure tt

pub Offline-alloc : (n : ℕ) → Offline Any (eob_iovec_alloc n)
unfolding eob_iovec_alloc
Offline-alloc n = Offline-bind (Offline-malloc n) (λ o _. Offline-or_nomem o)

-- A copy is of the bytes that are there.
Offline-contents : (o : Option (List ℕ)) → Offline (λ bs. o ≡ some bs) (contents o)
Offline-contents none = Offline-undefined
Offline-contents (some bs) = Offline-pure refl

Offline-copy : (d : Iovec) → Offline (λ bs. d.iov_base ≡ some bs) (eob_iovec_copy d)
unfolding eob_iovec_copy
Offline-copy d =
    Offline-bind (Offline-traced (Offline-alloc d.iov_len)) (λ _ _. Offline-contents d.iov_base)

-- What a call whose error is dropped gives, where it gives something.
abbrev pub IfSome {ℓ} : {A : Type ℓ} → (A → Type 0) → Option A → Type 0
IfSome Q none = Unit
IfSome Q (some a) = Q a

module _ {ℓ} {A : Type ℓ} {Q : A → Type 0} where
  Ends-attempt : {w : World} {r : Outcome A × World} → Ends Q w r → Ends (IfSome Q) w (attempt r)
  Ends-attempt (returns s q) = returns s q
  Ends-attempt (fails s) = returns s tt
  Ends-attempt (aborts s) = aborts s
  Ends-attempt (faults s) = faults s

  Offline-caught : {m : M A} → Offline Q m → Offline (IfSome Q) (caught m)
  Offline-caught h = record { at = λ w. Ends-attempt (h.at w) }

  pub Offline-or_no_memory : (o : Option A) → IfSome Q o → Offline Q (or_no_memory o)
  Offline-or_no_memory none q = Offline-set_err eob_nomem
  Offline-or_no_memory (some a) q = Offline-pure q

Offline-table_of : (o : Option (List ℕ)) → Offline Any (table_of o)
Offline-table_of none = Offline-set_err enomem
Offline-table_of (some bs) = Offline-pure tt

Offline-alloc_table : (count : ℕ) → Offline Any (alloc_table count)
unfolding alloc_table
Offline-alloc_table count =
    Offline-bind (Offline-caught (Offline-alloc (u64 (count * 16)))) (λ o _. Offline-table_of o)

Offline-pieces : (len size : ℕ) → Offline (λ n. n ≡ p2_roundup len size / size) (pieces len size)
unfolding pieces
Offline-pieces len size = Offline-bind (Offline-in_bounds (ltb 0 size)) (λ _ _. Offline-pure refl)

length-piece :
    (n size : ℕ) (bs b : List ℕ)
    → n ≤ size
    → length b ≡ size
    → length (overlay (take n bs) b) ≡ size
length-piece n size bs b h e = omega (arith, length-overlay (take n bs) b, length-take {0} n bs)

length-cons :
    (n size : ℕ) (b bs : List ℕ)
    → length b ≡ size
    → length bs ≡ n * size
    → length (b ++ bs) ≡ suc n * size
length-cons n size b bs e f = length-append {0} b bs ∙ grind (arith, e, f)

-- The pieces have their size, whatever the data.
Offline-fill_pieces :
    (dat : List ℕ) (size count n i : ℕ)
    → Offline (λ bs. length (flat bs) ≡ n * size) (fill_pieces dat size count n i)
unfolding fill_pieces
Offline-fill_pieces dat size count zero i = Offline-pure (omega arith)
Offline-fill_pieces dat size count (suc n) i =
    let offset : ℕ = u64 (i * size) in
    let len : ℕ = piece_len (length dat) size count i in
    Offline-bind (Offline-alloc_wait size) (λ b whole.
      Offline-bind (Offline-in_bounds (leb (offset + len) (length dat) && leb len size))
        (λ _ inside. Offline-bind (Offline-fill_pieces dat size count n (i + 1)) (λ rest e.
          Offline-pure (
            length-cons n size _ (flat rest)
              (length-piece len size (drop offset dat) b (ground (arith, inside)) whole) e))))

-- The pieces of the data, which take their whole number of blocks.
abbrev pub Cut : Buff → Buff → Type 0
Cut b b' =
    (b'.virt_blk_size ≡ b.virt_blk_size)
    × (length (flat b'.phys_blocks)
        ≡ p2_roundup (length b.dat) b.phys_blk_size / b.phys_blk_size * b.phys_blk_size)

pub Offline-map_data_to_phys : (b : Buff) → Offline (Cut b) (eob_buff_map_data_to_phys b)
unfolding eob_buff_map_data_to_phys
Offline-map_data_to_phys b =
    Offline-bind (Offline-pieces (length b.dat) b.phys_blk_size) (λ count e.
      Offline-bind (Offline-alloc_table count) (λ _ _.
        Offline-bind (Offline-fill_pieces b.dat b.phys_blk_size count count 0)
          (λ blocks f. Offline-pure (refl, f ∙ ap (λ c. c * b.phys_blk_size) e))))

-- A buffer with the data of an iovec.
abbrev pub Of : Device → Iovec → Buff → Type 0
Of dev d b = (dat : List ℕ) × (d.iov_base ≡ some dat) × (b ≡ new_buff dev dat)

Offline-buff_with :
    (dev : Device) (d : Iovec) (o : Option (List ℕ))
    → IfSome (λ bs. d.iov_base ≡ some bs) o
    → Offline (IfSome (Of dev d)) (buff_with dev o)
Offline-buff_with dev d none q = Offline-pure tt
Offline-buff_with dev d (some dat) q = Offline-pure (dat, q, refl)

Offline-buff_from :
    (dev : Device) (d : Iovec) → Offline (IfSome (Of dev d)) (buff_from dev (some d))
Offline-buff_from dev d =
    Offline-bind (Offline-caught (Offline-copy d)) (λ o q. Offline-buff_with dev d o q)

pub Offline-buff_create :
    (dev : Device) (d : Iovec) → Offline (IfSome (Of dev d)) (eob_buff_create dev (some d))
unfolding eob_buff_create
Offline-buff_create dev d = Offline-bind Offline-calloc (λ object _.
    if-elim (λ m. Offline (IfSome (Of dev d)) m) (not object) (λ _. Offline-pure tt)
      (λ _. Offline-buff_from dev d))
