-- ===== src/HeaderIo/Write.antt =====
-- What writing the header leaves on the device.
use eoblock.HeaderIo.{eob_write_header}
use eoblock.HeaderIo.Laws.{IsDevice, seen}
use eoblock.Header.{Header, FitsHeader, encode}
use eoblock.Header.RoundTrip.{length-encode, AllBytes-encode, decode-encode}
use eoblock.System.{ok, calm}
use eoblock.System.Disk.{
  overlay, overlay-append, read_at, write_at, read_at-write_at, take-overlay, length-overlay,
  length-write_at,
}
use eoblock.Header.{decode}
use eoblock.Prelude.{
  ℕ, zero, suc, ◌≤◌, ◌<◌, ◌≡◌, ap, ◌∙◌, arith, List, [], ◌∷◌, ◌++◌, ◌-◌, refl, append_assoc, drop,
  drop-append, take-append, length, take, replicate, length-replicate, AllBytes, AllBytes-zeros,
  lt→ltb, le→leb, take_all,
}

pub AllBytes-overlay : (xs ys : List ℕ) → AllBytes xs → AllBytes ys → AllBytes (overlay xs ys)
AllBytes-overlay [] ys h k = k
AllBytes-overlay (x ∷ xs) [] h k = h
AllBytes-overlay (x ∷ xs) (y ∷ ys) h k = (h.0, AllBytes-overlay xs ys h.1 k.1)

pub AllBytes-write_at :
    (o : ℕ) (xs d : List ℕ) → AllBytes xs → AllBytes d → AllBytes (write_at o xs d)
unfolding write_at
AllBytes-write_at o [] d h k = k
AllBytes-write_at zero (x ∷ xs) d h k = AllBytes-overlay (x ∷ xs) d h k
AllBytes-write_at (suc o) (x ∷ xs) [] h k = (omega arith, AllBytes-write_at o (x ∷ xs) [] h tt)
AllBytes-write_at (suc o) (x ∷ xs) (y ∷ d) h k = (k.0, AllBytes-write_at o (x ∷ xs) d h k.1)

-- What is written: the header, and zeros up to the end of the block.
unfoldable pub header_block : Header → List ℕ
header_block hdr = overlay (encode hdr) (replicate hdr.h.phys_blk_size 0)

module _ {hdr : Header} (f : FitsHeader hdr) (room : 512 ≤ hdr.h.phys_blk_size) where
  pub length-header_block : length (header_block hdr) ≡ hdr.h.phys_blk_size
  unfolding header_block
  length-header_block = omega (
    arith,
    length-overlay (encode hdr) (replicate hdr.h.phys_blk_size 0),
    length-encode f,
    length-replicate {A = ℕ} hdr.h.phys_blk_size 0,
  )

  take-header_block : take 512 (header_block hdr) ≡ encode hdr
  unfolding header_block
  take-header_block =
      take-overlay 512 (encode hdr) (replicate hdr.h.phys_blk_size 0)
        (omega (arith, length-encode f))
      ∙ take_all 512 (encode hdr) (omega (arith, length-encode f))

  -- The header on the device is the one that was written, where its values fit the structure and
  -- its blocks have 512 bytes or more.
  pub seen-write : (d : List ℕ) → seen (write_at 0 (header_block hdr) d) ≡ hdr
  unfolding seen
  seen-write d =
      ap decode (
        read_at-write_at 0 512 (header_block hdr) d (omega (arith, length-header_block))
        ∙ take-header_block)
      ∙ decode-encode f

  pub IsDevice-write : (d : List ℕ) → AllBytes d → IsDevice (write_at 0 (header_block hdr) d)
  unfolding header_block
  IsDevice-write d v = record {
    size = omega (
      arith,
      length-write_at 0 (header_block hdr) d (omega (arith, length-header_block)),
      length-header_block,
    );
    bytes =
        AllBytes-write_at 0 (header_block hdr) d
          (AllBytes-overlay (encode hdr) (replicate hdr.h.phys_blk_size 0) (AllBytes-encode f)
            (AllBytes-zeros hdr.h.phys_blk_size))
          v;
  }

  -- Where nothing interferes the write succeeds.
  pub eob_write_header-calm :
      (fd : ℕ) (d : List ℕ)
      → 0 < fd
      → eob_write_header fd hdr (calm d) ≡ (ok tt, calm (write_at 0 (header_block hdr) d))
  unfolding eob_write_header header_block
  eob_write_header-calm fd d opened =
      rw (lt→ltb 0 fd opened)
        (rw (le→leb 512 hdr.h.phys_blk_size room) (rw (lt→ltb 0 hdr.h.phys_blk_size (omega arith))))

drop-replicate : (n m : ℕ) (x : ℕ) → n ≤ m → drop n (replicate m x) ≡ replicate (m - n) x
drop-replicate zero m x h = ap (λ k. replicate k x) (omega arith)
drop-replicate (suc n) zero x h = absurd (omega arith)
drop-replicate (suc n) (suc m) x h =
    drop-replicate n m x (omega arith) ∙ ap (λ k. replicate k x) (omega arith)

write_at-zero : (bs d : List ℕ) → write_at 0 bs d ≡ overlay bs d
unfolding write_at
write_at-zero [] d = refl
write_at-zero (b ∷ bs) d = refl

-- Writing a header writes a whole block of the device: what lies between the 512 bytes of the header
-- and the end of that block is zero afterwards, on a calm device that has the block.
pub eob_write_header_clears :
    {hdr : Header} (fd : ℕ) (d : List ℕ)
    → FitsHeader hdr
    → 512 ≤ hdr.h.phys_blk_size
    → hdr.h.phys_blk_size ≤ length d
    → 0 < fd
    → (d' : List ℕ) × (eob_write_header fd hdr (calm d) ≡ (ok tt, calm d'))
      × (read_at 512 (hdr.h.phys_blk_size - 512) d' ≡ replicate (hdr.h.phys_blk_size - 512) 0)
unfolding header_block read_at
eob_write_header_clears {hdr} fd d f room size opened =
    let p : ℕ = hdr.h.phys_blk_size in
    let zeros : List ℕ = replicate (p - 512) 0 in
    let e : List ℕ = encode hdr in
    let tail : List ℕ = drop (length (header_block hdr)) d in
    let long : length e ≡ 512 = length-encode f in
    let block : header_block hdr ≡ e ++ zeros =
      overlay-append e (replicate p 0) (omega (arith, long, length-replicate {A = ℕ} p 0))
      ∙ ap (λ n. e ++ drop n (replicate p 0)) long
      ∙ ap (λ zs. e ++ zs) (drop-replicate 512 p 0 room) in
    let whole : write_at 0 (header_block hdr) d ≡ e ++ (zeros ++ tail) =
      write_at-zero (header_block hdr) d
      ∙ overlay-append (header_block hdr) d (omega (arith, length-header_block f room))
      ∙ ap (λ xs. xs ++ tail) block
      ∙ append_assoc e zeros tail in
    (
      write_at 0 (header_block hdr) d,
      eob_write_header-calm f room fd d opened,
      ap (λ xs. take (p - 512) (drop 512 xs)) whole
          ∙ ap (take (p - 512)) (drop-append 512 e (zeros ++ tail) long)
          ∙ take-append (p - 512) zeros tail (length-replicate {A = ℕ} (p - 512) 0),
    )
