-- ===== src/HeaderIo.antt =====
-- lib/liboblock.c: reading and writing the header through a file descriptor.
pub mod Laws
pub mod Write
use eoblock.Prelude.{
  ℕ, zero, suc, Bool, ◌&&◌, Option, none, some, List, ltb, leb, ◌==◌, if◌then◌else◌,
}
use eoblock.Types.{is_b_true}
use eoblock.Errors.{eob_ok, eob_io, eob_chksum, eob_ver_mism}
use eoblock.System.{M, pread, pwrite, pure, set_io_err, verify, ◌>>=◌, ◌>>◌}
use eoblock.System.Disk.{overlay}
use eoblock.Iovec.{eob_iovec_calloc_wait}
use eoblock.Header.{Header, encode, decode, eob_hdr_size}
use eoblock.Chksum.{Zlib, eob_header_chksum_is_ok}

abbrev pub eob_hdr_version : ℕ
eob_hdr_version = 2

abbrev pub eob_hdr_magic : ℕ
eob_hdr_magic = 0xe0b10c3003

abbrev pub eob_header_offset : ℕ
eob_header_offset = 0

-- The end of a function that has written: `if (rv < 0) return SET_IO_ERR(); return (0);`
abbrev pub io_result : Option ℕ → M (Unit {0})
io_result none = set_io_err
io_result (some n) = pure tt

unfoldable pub eob_write_header : ℕ → Header → M (Unit {0})
unfolding eob_iovec_calloc_wait pwrite
eob_write_header fd hdr = do
  verify (ltb 0 fd)
  verify (leb eob_hdr_size hdr.h.phys_blk_size)
  buf ← eob_iovec_calloc_wait hdr.h.phys_blk_size
  rv ← pwrite eob_header_offset (overlay (encode hdr) buf)
  io_result rv

-- The return code, and what the call leaves in `*hdr`.
pub record Reply : Type 0 where
  pub rv : ℕ
  pub hdr : Header

module _ (z : Zlib) where
  -- The code with which a pass returns; `none` is another pass.
  unfoldable pub verdict : Header → Option ℕ
  verdict hdr =
      if is_b_true (eob_header_chksum_is_ok z hdr) && (eob_hdr_magic == hdr.h.magic)
      then (if eob_hdr_version == hdr.h.version then some eob_ok else some eob_ver_mism)
      else none

  -- `*hdr` after `pread` has filled the first bytes of it.
  abbrev pub refill : List ℕ → Header → Header
  refill bs hdr = decode (overlay bs (encode hdr))

  -- The end of a pass: `again` stands for the passes that are left.
  abbrev pub judged : Option ℕ → Header → (Header → M Reply) → M Reply
  judged none hdr again = again hdr
  judged (some rv) hdr again = pure (record { rv = rv; hdr = hdr })

  abbrev pub pass : Option (List ℕ) → Header → (Header → M Reply) → M Reply
  pass none hdr again = pure (record { rv = eob_io; hdr = hdr })
  pass (some bs) hdr again = judged (verdict (refill bs hdr)) (refill bs hdr) again

  -- The passes that are left. A short read leaves the end of `*hdr` as it was.
  unfoldable pub read_passes : ℕ → Header → M Reply
  unfolding pread
  read_passes zero hdr = pure (record { rv = eob_chksum; hdr = hdr })
  read_passes (suc n) hdr = do r ← pread eob_hdr_size eob_header_offset; pass r hdr (read_passes n)

  abbrev max_pass : ℕ
  max_pass = 10

  unfoldable pub eob_read_header : ℕ → Header → M Reply
  eob_read_header fd hdr = do verify (ltb 0 fd); read_passes max_pass hdr

  -- The same function for an open device, `fd` being its descriptor.
  unfoldable pub eob_device_read_header : ℕ → Header → M Reply
  eob_device_read_header fd hdr = do verify (ltb 0 fd); read_passes max_pass hdr
