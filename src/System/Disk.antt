-- ===== src/System/Disk.antt =====
-- The bytes of a device, and what a read sees of a write.
use eoblock.Prelude.{
  ℕ, zero, suc, ◌+◌, ◌≤◌, ◌≡◌, refl, ap, arith, List, [], ◌∷◌, ◌++◌, length, take, drop, max,
  drop_all,
}

module _ {ℓ} {A : Type ℓ} where
  -- The first bytes replaced.
  abbrev pub overlay : List A → List A → List A
  overlay [] d = d
  overlay (b ∷ bs) [] = b ∷ bs
  overlay (b ∷ bs) (x ∷ d) = b ∷ overlay bs d

unfoldable pub read_at : ℕ → ℕ → List ℕ → List ℕ
read_at offset n d = take n (drop offset d)

-- A write past the end leaves zeros between.
unfoldable pub write_at : ℕ → List ℕ → List ℕ → List ℕ
write_at offset [] d = d
write_at zero (b ∷ bs) d = overlay (b ∷ bs) d
write_at (suc o) (b ∷ bs) [] = 0 ∷ write_at o (b ∷ bs) []
write_at (suc o) (b ∷ bs) (x ∷ d) = x ∷ write_at o (b ∷ bs) d

pub take-overlay : (n : ℕ) (bs d : List ℕ) → n ≤ length bs → take n (overlay bs d) ≡ take n bs
take-overlay zero bs d h = refl
take-overlay (suc n) [] d h = absurd (omega arith)
take-overlay (suc n) (b ∷ bs) [] h = refl
take-overlay (suc n) (b ∷ bs) (x ∷ d) h = ap (λ r. b ∷ r) (take-overlay n bs d (omega arith))

pub length-overlay : (bs d : List ℕ) → length (overlay bs d) ≡ max (length bs) (length d)
length-overlay [] d = omega arith
length-overlay (b ∷ bs) [] = omega arith
length-overlay (b ∷ bs) (x ∷ d) = omega (arith, length-overlay bs d)

-- Bytes that cover the memory replace all of it.
pub overlay_all : (bs d : List ℕ) → length d ≤ length bs → overlay bs d ≡ bs
overlay_all [] [] h = refl
overlay_all [] (x ∷ d) h = absurd (omega arith)
overlay_all (b ∷ bs) [] h = refl
overlay_all (b ∷ bs) (x ∷ d) h = ap (λ r. b ∷ r) (overlay_all bs d (omega arith))

pub overlay-append :
    (bs d : List ℕ) → length bs ≤ length d → overlay bs d ≡ bs ++ drop (length bs) d
overlay-append [] d h = refl
overlay-append (b ∷ bs) [] h = absurd (omega arith)
overlay-append (b ∷ bs) (x ∷ d) h = ap (λ r. b ∷ r) (overlay-append bs d (omega arith))

drop-overlay : (n : ℕ) (bs d : List ℕ) → length bs ≤ n → drop n (overlay bs d) ≡ drop n d
drop-overlay n [] d h = refl
drop-overlay zero (b ∷ bs) d h = absurd (omega arith)
drop-overlay (suc n) (b ∷ bs) [] h = drop_all n bs (omega arith)
drop-overlay (suc n) (b ∷ bs) (x ∷ d) h = drop-overlay n bs d (omega arith)

-- A read at the offset of a write sees what was written.
pub read_at-write_at :
    (o n : ℕ) (bs d : List ℕ) → n ≤ length bs → read_at o n (write_at o bs d) ≡ take n bs
unfolding read_at write_at
read_at-write_at o n [] d h = let e : n ≡ 0 = omega arith in rw e
read_at-write_at zero n (b ∷ bs) d h = take-overlay n (b ∷ bs) d h
read_at-write_at (suc o) n (b ∷ bs) [] h = read_at-write_at o n (b ∷ bs) [] h
read_at-write_at (suc o) n (b ∷ bs) (x ∷ d) h = read_at-write_at o n (b ∷ bs) d h

-- A read that ends before a write, inside the device, does not see it.
pub read_at-write_at_before :
    (o n o' : ℕ) (bs d : List ℕ)
    → o + n ≤ o'
    → o + n ≤ length d
    → read_at o n (write_at o' bs d) ≡ read_at o n d
unfolding read_at write_at
read_at-write_at_before o n o' [] d h g = refl
read_at-write_at_before zero zero o' (b ∷ bs) d h g = refl
read_at-write_at_before zero (suc n) zero (b ∷ bs) d h g = absurd (omega arith)
read_at-write_at_before zero (suc n) (suc o') (b ∷ bs) [] h g = absurd (omega arith)
read_at-write_at_before zero (suc n) (suc o') (b ∷ bs) (x ∷ d) h g =
    ap (λ r. x ∷ r) (read_at-write_at_before zero n o' (b ∷ bs) d (omega arith) (omega arith))
read_at-write_at_before (suc o) n zero (b ∷ bs) d h g = absurd (omega arith)
read_at-write_at_before (suc o) n (suc o') (b ∷ bs) [] h g = absurd (omega arith)
read_at-write_at_before (suc o) n (suc o') (b ∷ bs) (x ∷ d) h g =
    read_at-write_at_before o n o' (b ∷ bs) d (omega arith) (omega arith)

write_at-nil-length :
    (o : ℕ) (b : ℕ) (bs : List ℕ) → length (write_at o (b ∷ bs) []) ≡ o + length (b ∷ bs)
unfolding write_at
write_at-nil-length zero b bs = omega arith
write_at-nil-length (suc o) b bs = omega (arith, write_at-nil-length o b bs)

-- A read behind a write does not see it.
pub read_at-write_at_after :
    (o n o' : ℕ) (bs d : List ℕ)
    → o' + length bs ≤ o
    → read_at o n (write_at o' bs d) ≡ read_at o n d
unfolding read_at write_at
read_at-write_at_after o n o' [] d h = refl
read_at-write_at_after o n zero (b ∷ bs) d h = ap (take n) (drop-overlay o (b ∷ bs) d (omega arith))
read_at-write_at_after zero n (suc o') (b ∷ bs) d h = absurd (omega arith)
read_at-write_at_after (suc o) n (suc o') (b ∷ bs) [] h =
    ap (take n) (drop_all o (write_at o' (b ∷ bs) []) (omega (arith, write_at-nil-length o' b bs)))
read_at-write_at_after (suc o) n (suc o') (b ∷ bs) (x ∷ d) h =
    read_at-write_at_after o n o' (b ∷ bs) d (omega arith)

-- A write never shortens the device, and a write that is not empty reaches its own end.
pub length-write_at :
    (o : ℕ) (bs d : List ℕ)
    → 1 ≤ length bs
    → length (write_at o bs d) ≡ max (length d) (o + length bs)
unfolding write_at
length-write_at o [] d h = absurd (omega arith)
length-write_at zero (b ∷ bs) d h = omega (arith, length-overlay (b ∷ bs) d)
length-write_at (suc o) (b ∷ bs) [] h = omega (arith, length-write_at o (b ∷ bs) [] h)
length-write_at (suc o) (b ∷ bs) (x ∷ d) h = omega (arith, length-write_at o (b ∷ bs) d h)
