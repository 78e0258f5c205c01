-- ===== src/Chksum.antt =====
-- lib/chksum.c. `crc32` is zlib's.
use eoblock.Prelude.{ℕ, ◌^◌, ◌<◌, ◌==◌, List}
use eoblock.Types.{Boolean, boolean_of}
use eoblock.Header.{Header, encode_preamble}

-- What the program uses of zlib: a checksum of 32 bits, started at 0.
pub record Zlib : Type 0 where
  pub crc32 : List ℕ → ℕ
  pub crc32-lt : (bs : List ℕ) → crc32 bs < 2 ^ 32

module _ (z : Zlib) where
  unfoldable pub eob_header_chksum_is_ok : Header → Boolean
  eob_header_chksum_is_ok hdr = boolean_of (z.crc32 (encode_preamble hdr.h) == hdr.chksum)

  unfoldable pub eob_header_chksum_calc : Header → Header
  eob_header_chksum_calc hdr = record hdr { chksum = z.crc32 (encode_preamble hdr.h) }

  unfoldable pub eob_chcksum_calc : List ℕ → ℕ
  eob_chcksum_calc bs = z.crc32 bs
