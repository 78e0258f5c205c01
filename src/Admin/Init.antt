-- ===== src/Admin/Init.antt =====
-- What `eob_hdr_init` and `eob_hdr_deinit` leave on a calm device.
use eoblock.Admin.{initial, or_default, eob_hdr_init, eob_hdr_deinit}
use eoblock.Admin.Spec.{members, if_present}
use eoblock.Admin.Registry.{FitsHeader-header_zero, IsRegistry}
use eoblock.Errors.{eob_chksum}
use eoblock.Macros.{p2_phase}
use eoblock.Types.{is_b_true}
use eoblock.Chksum.{Zlib, eob_header_chksum_calc, eob_header_chksum_is_ok}
use eoblock.Header.{Header, FitsHeader, encode, encode_preamble, decode, header_zero, node_zero}
use eoblock.Header.RoundTrip.{length-encode, AllBytes-encode, decode-encode}
use eoblock.HeaderIo.{eob_hdr_magic, eob_read_header, verdict}
use eoblock.HeaderIo.Laws.{IsDevice, IsGood, seen, settled, eob_read_header-calm}
use eoblock.HeaderIo.Write.{
  header_block, seen-write, IsDevice-write, eob_write_header-calm, AllBytes-write_at,
}
use eoblock.System.{ok, calm, ◌>>=◌}
use eoblock.System.Disk.{
  write_at, read_at, read_at-write_at, read_at-write_at_after, length-write_at,
}
use eoblock.Prelude.{
  ℕ, zero, suc, ◌+◌, ◌^◌, ◌≤◌, ◌<◌, ◌≡◌, refl, ap, ◌∙◌, arith, Bool, true, false, ◌&&◌, List, none,
  get_elem?, replicate, AllBytes, ◌==◌, eq→==, le→leb, take_all,
}

-- The arguments with which eob_hdr_init sets a device up. A zero stands for a default. P2PHASE of the
-- sizes is 0 for a multiple of a power of two; for a physical size that is no power of two it need not
-- be for a multiple.
pub record IsLayout (count virt phys : ℕ) : Type 0 where
  pub nodes : or_default count 32 ≤ 32
  pub sector : 512 ≤ or_default phys 4096
  pub order : or_default phys 4096 ≤ or_default virt 4096
  pub phase : p2_phase (or_default virt 4096) (or_default phys 4096) ≡ 0
  pub small : or_default virt 4096 < 2 ^ 31

get_elem?-replicate : (n j : ℕ) → if_present (get_elem? (replicate n node_zero) j) ≡ none
get_elem?-replicate zero j = refl
get_elem?-replicate (suc n) zero = refl
get_elem?-replicate (suc n) (suc j) = get_elem?-replicate n j

module _ (z : Zlib) {count virt phys : ℕ} (g : IsLayout count virt phys) where
  -- The header that eob_hdr_init writes.
  abbrev pub fresh : Header
  fresh =
      eob_header_chksum_calc z
        (initial (or_default count 32) (or_default virt 4096) (or_default phys 4096))

  FitsHeader-fresh : FitsHeader fresh
  unfolding eob_header_chksum_calc initial header_zero
  FitsHeader-fresh = record {
    preamble = record {
      magic = omega arith;
      version = omega arith;
      phys = omega (arith, g.order, g.small);
      virt = omega (arith, g.small);
      count = omega (arith, g.nodes);
      table = refl;
      nodes = FitsHeader-header_zero.preamble.nodes;
    };
    padding = refl;
    padding_bytes = FitsHeader-header_zero.padding_bytes;
    chksum = omega (arith, z.crc32-lt (encode_preamble fresh.h));
  }

  room : 512 ≤ fresh.h.phys_blk_size
  unfolding eob_header_chksum_calc initial
  room = g.sector

  pub IsGood-fresh : IsGood z fresh
  unfolding eob_header_chksum_calc initial
  IsGood-fresh = record { fits = FitsHeader-fresh; sum = refl; magic = refl; version = refl }

  -- The device after it.
  abbrev pub formatted : List ℕ → List ℕ
  formatted d = write_at 0 (header_block fresh) d

  eob_hdr_init-calm :
      (fd : ℕ) (d : List ℕ)
      → 0 < fd
      → eob_hdr_init z fd count virt phys (calm d) ≡ (ok tt, calm (formatted d))
  unfolding eob_hdr_init
  eob_hdr_init-calm fd d opened =
      rw (le→leb (or_default phys 4096) (or_default virt 4096) g.order) (
        rw (eq→== (p2_phase (or_default virt 4096) (or_default phys 4096)) 0 g.phase)
          (rw (eob_write_header-calm FitsHeader-fresh room fd d opened) refl))

  IsRegistry-formatted :
      (d : List ℕ)
      → AllBytes d
      → IsRegistry z (formatted d)
        × ((j : ℕ) → members (seen (formatted d)) j ≡ none)
        × ((seen (formatted d)).h.nodes_count ≡ or_default count 32)
        × ((seen (formatted d)).h.virt_blk_size ≡ or_default virt 4096)
        × ((seen (formatted d)).h.phys_blk_size ≡ or_default phys 4096)
  unfolding eob_header_chksum_calc initial header_zero
  IsRegistry-formatted d bytes =
      let e : seen (formatted d) ≡ fresh = seen-write FitsHeader-fresh room d in
      (
        record {
          device = IsDevice-write FitsHeader-fresh room d bytes;
          good = rw e IsGood-fresh;
          room = rw e g.sector;
          capacity = rw e g.nodes;
        },
        (λ j. rw e (get_elem?-replicate 32 j)),
        ap (λ x. x.h.nodes_count) e,
        ap (λ x. x.h.virt_blk_size) e,
        ap (λ x. x.h.phys_blk_size) e,
      )

  -- On a calm device that holds bytes, eob_hdr_init succeeds for at most 32 nodes, a physical block
  -- of 512 bytes or more and a virtual one that is no smaller, below 2 ^ 31 and has P2PHASE 0 by the
  -- physical one, as the multiples of a power of two have, zeros standing for the defaults. The
  -- descriptor is not 0. The device that it leaves is one that the operations on nodes work on: it has the
  -- sizes and the number of nodes that were asked for, and no members.
  pub eob_hdr_init_establishes :
      (fd : ℕ) (d : List ℕ)
      → 0 < fd
      → AllBytes d
      → (eob_hdr_init z fd count virt phys (calm d) ≡ (ok tt, calm (formatted d)))
        × IsRegistry z (formatted d)
        × ((j : ℕ) → members (seen (formatted d)) j ≡ none)
        × ((seen (formatted d)).h.nodes_count ≡ or_default count 32)
        × ((seen (formatted d)).h.virt_blk_size ≡ or_default virt 4096)
        × ((seen (formatted d)).h.phys_blk_size ≡ or_default phys 4096)
  eob_hdr_init_establishes fd d opened bytes =
      let (registry, empty, nodes, virt_size, phys_size) = IsRegistry-formatted d bytes in
      (eob_hdr_init-calm fd d opened, registry, empty, nodes, virt_size, phys_size)

module _ (z : Zlib) where
  -- The device after eob_hdr_deinit.
  abbrev pub wiped : List ℕ → List ℕ
  wiped d = write_at 0 (encode header_zero) d

  seen-wiped : (d : List ℕ) → seen (wiped d) ≡ header_zero
  unfolding seen
  seen-wiped d =
      ap decode (
        read_at-write_at 0 512 (encode header_zero) d
          (omega (arith, length-encode FitsHeader-header_zero))
        ∙ take_all 512 (encode header_zero) (omega (arith, length-encode FitsHeader-header_zero)))
      ∙ decode-encode FitsHeader-header_zero

  pub IsDevice-wiped : (d : List ℕ) → IsDevice d → IsDevice (wiped d)
  IsDevice-wiped d v = record {
    size = omega (
      arith,
      length-encode FitsHeader-header_zero,
      length-write_at 0 (encode header_zero) d
          (omega (arith, length-encode FitsHeader-header_zero)),
    );
    bytes =
        AllBytes-write_at 0 (encode header_zero) d (AllBytes-encode FitsHeader-header_zero) v.bytes;
  }

  and-false : (b : Bool) → (b && false) ≡ false
  and-false true = refl
  and-false false = refl

  verdict-magic : (hdr : Header) → (eob_hdr_magic == hdr.h.magic) ≡ false → verdict z hdr ≡ none
  unfolding verdict
  verdict-magic hdr e = rw e (rw (and-false (is_b_true (eob_header_chksum_is_ok z hdr))) refl)

  verdict-header_zero : verdict z header_zero ≡ none
  unfolding header_zero
  verdict-header_zero = verdict-magic header_zero refl

  pub verdict-wiped : (d : List ℕ) → verdict z (seen (wiped d)) ≡ none
  verdict-wiped d = ap (verdict z) (seen-wiped d) ∙ verdict-header_zero

  -- On a calm device eob_hdr_deinit succeeds, and a header that is read afterwards is refused with
  -- EOB_CHKSUM. The bytes behind the header stay.
  pub eob_hdr_deinit_invalidates :
      (fd : ℕ) (d : List ℕ)
      → 0 < fd
      → IsDevice d
      → ((eob_hdr_deinit z >>= λ _. eob_read_header z fd header_zero) (calm d)
          ≡ (ok (record { rv = eob_chksum; hdr = header_zero }), calm (wiped d)))
        × ((o n : ℕ) → read_at (512 + o) n (wiped d) ≡ read_at (512 + o) n d)
  unfolding eob_hdr_deinit
  eob_hdr_deinit_invalidates fd d opened v = (
    eob_read_header-calm z (IsDevice-wiped d v) fd opened FitsHeader-header_zero
        ∙ ap (λ x. (ok (record { rv = settled (verdict z x); hdr = x }), calm (wiped d)))
            (seen-wiped d)
        ∙ ap (λ o. (ok (record { rv = settled o; hdr = header_zero }), calm (wiped d)))
            verdict-header_zero,
    (λ o n.
        read_at-write_at_after (512 + o) n 0 (encode header_zero) d
          (omega (arith, length-encode FitsHeader-header_zero))),
  )
