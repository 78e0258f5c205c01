-- ===== src/Buff/Pieces.antt =====
-- The loops over the pieces, on a calm device: what they allocate, gather and cut.
use native.Mathlib.Nat.{mul-add-div_right, div-eq_of_lt}
use eoblock.Macros.{u64, sub64, p2_roundup}
use eoblock.Macros.Laws.{p2_roundup-eq, two_pow_pos}
use eoblock.System.{World, ok, calm}
use eoblock.System.Disk.{overlay, overlay_all}
use eoblock.Iovec.{eob_iovec_alloc_wait}
use eoblock.Buff.{flat, scatter, alloc_pieces, gather, fill_pieces, piece_len}
use eoblock.Prelude.{
  ℕ, zero, suc, ◌+◌, ◌-◌, ◌*◌, ◌/◌, ◌^◌, ◌≤◌, ◌<◌, ◌≡◌, refl, sym, ap, ap₂, ◌∙◌, arith, List, [],
  ◌∷◌, ◌++◌, append-nil, append_assoc, length, take, drop, replicate, length-append, length-take,
  length-drop, length-replicate, take-append-drop, drop-drop, drop_all, lt→ltb, le→leb, leb, ltb,
  Bool-cases, inl, inr,
}

-- A piece of memory where nothing fails.
pub eob_iovec_alloc_wait-calm :
    (n : ℕ) (d : List ℕ) → 0 < n → eob_iovec_alloc_wait n (calm d) ≡ (ok (replicate n 0), calm d)
unfolding eob_iovec_alloc_wait
eob_iovec_alloc_wait-calm n d h = rw (lt→ltb 0 n h)

pub alloc_pieces-calm :
    (n size : ℕ) (d : List ℕ)
    → 0 < size
    → alloc_pieces n size (calm d) ≡ (ok (replicate n (replicate size 0)), calm d)
unfolding alloc_pieces
alloc_pieces-calm zero size d h = refl
alloc_pieces-calm (suc n) size d h =
    rw (eob_iovec_alloc_wait-calm size d h) (rw (alloc_pieces-calm n size d h))

pub length-flat-replicate : (n size : ℕ) → length (flat (replicate n (replicate size 0))) ≡ n * size
length-flat-replicate zero size = omega arith
length-flat-replicate (suc n) size = ground (
  arith,
  length-append {0} (replicate size 0) (flat (replicate n (replicate size 0))),
  length-replicate {A = ℕ} size 0,
  length-flat-replicate n size,
)

-- A read that fills all buffers leaves its bytes in them.
pub flat-scatter :
    (blocks : List (List ℕ)) (bs : List ℕ)
    → length bs ≡ length (flat blocks)
    → flat (scatter blocks bs) ≡ bs
flat-scatter [] [] h = refl
flat-scatter [] (x ∷ bs) h = absurd (omega arith)
flat-scatter (b ∷ blocks) bs h =
    let e : length bs ≡ length b + length (flat blocks) =
      omega (arith, length-append {0} b (flat blocks)) in
    ap₂ ◌++◌ (overlay_all (take (length b) bs) b (omega (arith, length-take {0} (length b) bs)))
      (flat-scatter blocks (drop (length b) bs) (omega (arith, length-drop {0} (length b) bs)))
    ∙ take-append-drop (length b) bs

nil_of_length : (bs : List ℕ) → length bs ≡ 0 → bs ≡ []
nil_of_length [] h = refl
nil_of_length (b ∷ bs) h = absurd (omega arith)

-- Gathering pieces that make up the data exactly.
pub gather-flat :
    (blocks : List (List ℕ)) (copied : List ℕ) (n : ℕ) (w : World)
    → length copied + length (flat blocks) ≡ n
    → gather n copied blocks w ≡ (ok (copied ++ flat blocks), w)
unfolding gather
gather-flat [] copied n w h = rw (append-nil copied)
gather-flat (b ∷ blocks) copied n w h =
    let e : length (copied ++ b) + length (flat blocks) ≡ n =
      omega (arith, length-append {0} b (flat blocks), length-append {0} copied b) in
    rw (le→leb (length (copied ++ b)) n (omega arith))
      (elim (Bool-cases (leb n (length (copied ++ b)))) [
        | inl full ↦
            let nil : flat blocks ≡ [] = nil_of_length (flat blocks) (ground arith) in
            rw full (rw nil (rw (append-nil b)))
        | inr more ↦ rw more (
            gather-flat blocks (copied ++ b) n w e
            ∙ ap (λ xs. (ok xs, w)) (append_assoc copied b (flat blocks)))
      ])

-- Rounding up what is a whole number of blocks.
pub p2_roundup-multiple :
    (k count : ℕ)
    → k < 64
    → 1 ≤ count
    → count * 2 ^ k + 2 ^ k ≤ 2 ^ 64
    → p2_roundup (count * 2 ^ k) (2 ^ k) ≡ count * 2 ^ k
p2_roundup-multiple k zero h pos fits = absurd (omega arith)
p2_roundup-multiple k (suc c) h pos fits =
    let e : suc c * 2 ^ k - 1 ≡ c * 2 ^ k + (2 ^ k - 1) = grind (arith, two_pow_pos k) in
    let q : (c * 2 ^ k + (2 ^ k - 1)) / 2 ^ k ≡ c = omega (
      arith,
      mul-add-div_right {m = 2 ^ k} (two_pow_pos k) c (2 ^ k - 1),
      div-eq_of_lt {n = 2 ^ k - 1} {m = 2 ^ k} (omega (arith, two_pow_pos k)),
    ) in
    p2_roundup-eq k (suc c * 2 ^ k) h (grind (arith, two_pow_pos k)) fits ∙ rw (e, q) (grind arith)

-- The pieces cut from data that is a whole number of blocks.
module _ (dat : List ℕ) (size count : ℕ) (pos : 0 < size) (whole : length dat ≡ count * size)
    (small : count * size < 2 ^ 63) where
  piece_within : (i : ℕ) → i < count → i * size + size ≤ count * size
  piece_within i h = grind arith

  piece_len-whole : (i : ℕ) → i < count → piece_len (length dat) size count i ≡ size
  piece_len-whole i h =
      let before : i * size + size ≤ count * size = piece_within i h in
      let few : count ≤ count * size = grind arith in
      let last : sub64 count 1 ≡ count - 1 = omega arith in
      let offset : u64 (i * size) ≡ i * size = omega arith in
      rw (last, offset)
        (elim (Bool-cases (ltb i (count - 1))) [
          | inl inner ↦ rw inner
          | inr outer ↦
              let e : count ≡ suc i = ground arith in
              let all : count * size ≡ i * size + size = ap (λ t. t * size) e ∙ grind arith in
              rw outer (omega (arith, all))
        ])

  pub fill_pieces-calm :
      (n i : ℕ) (d : List ℕ)
      → i + n ≡ count
      → (blocks : List (List ℕ)) × (fill_pieces dat size count n i (calm d) ≡ (ok blocks, calm d))
        × (flat blocks ≡ drop (i * size) dat)
  unfolding fill_pieces
  fill_pieces-calm zero i d h = (
    [],
    refl,
    sym (
        drop_all (i * size) dat
          (let e : i ≡ count = omega arith in omega (arith, ap (λ t. t * size) e))),
  )
  fill_pieces-calm (suc n) i d h =
      let before : i * size + size ≤ count * size = piece_within i (omega arith) in
      let offset : u64 (i * size) ≡ i * size = omega arith in
      let (blocks, e, f) = fill_pieces-calm n (i + 1) d (omega arith) in
      (
        overlay (take size (drop (i * size) dat)) (replicate size 0) ∷ blocks,
        rw (eob_iovec_alloc_wait-calm size d pos) (
            rw (piece_len-whole i (omega arith), offset)
              (rw
                (
                  le→leb (i * size + size) (length dat) (omega arith),
                  le→leb size size (omega arith),
                )
                (rw e))),
        ap₂ ◌++◌
              (overlay_all (take size (drop (i * size) dat)) (replicate size 0) (
                omega (
                  arith,
                  length-take {0} size (drop (i * size) dat),
                  length-drop {0} (i * size) dat,
                  length-replicate {A = ℕ} size 0,
                )))
              (f ∙ ap (λ k. drop k dat) (next i) ∙ sym (drop-drop (i * size) size dat))
            ∙ take-append-drop size (drop (i * size) dat),
      )
    where
      next : (i : ℕ) → (i + 1) * size ≡ i * size + size
      next i = grind arith
