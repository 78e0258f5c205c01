-- ===== src/Admin/Formatted.antt =====
-- lib/liboblock.c: what `eob_hdr_init` leaves of the bytes behind the header, where the physical blocks
-- have 512 bytes.
use eoblock.Admin.{initial, or_default}
use eoblock.Admin.Behind.{Behind}
use eoblock.Admin.Init.{IsLayout, IsGood-fresh, fresh, formatted}
use eoblock.Chksum.{Zlib, eob_header_chksum_calc}
use eoblock.HeaderIo.Write.{header_block, length-header_block}
use eoblock.System.{ok, calm}
use eoblock.System.Disk.{read_at-write_at_after, length-write_at}
use eoblock.Prelude.{ℕ, ◌≤◌, ◌≡◌, refl, arith, List, length}

module _ (z : Zlib) {count virt phys : ℕ} (g : IsLayout count virt phys)
    (sector : or_default phys 4096 ≡ 512) (d : List ℕ) where
  block : (fresh z g).h.phys_blk_size ≡ 512
  unfolding eob_header_chksum_calc initial
  block = sector

  length-block : length (header_block (fresh z g)) ≡ 512
  length-block =
      omega (arith, length-header_block (IsGood-fresh z g).fits (omega (arith, block)), block)

  pub Behind-formatted : 512 ≤ length d → Behind d (ok tt, calm (formatted z g d))
  Behind-formatted size = record {
    calm_again = refl;
    size = omega (
      arith,
      size,
      length-block,
      length-write_at 0 (header_block (fresh z g)) d (omega (arith, length-block)),
    );
    bytes = λ o m behind.
        read_at-write_at_after o m 0 (header_block (fresh z g)) d (omega (arith, length-block));
  }
