-- ===== src/Device/Laws.antt =====
-- How an open device comes to its header: it is taken from the device, or written anew.
use eoblock.Device.{
  Device, one_shl, cleared, eob_device_write_header, renewed, adopt, renew, eob_device_init_hdr,
}
use eoblock.Errors.{eob_ok, eob_ver_mism}
use eoblock.Chksum.{Zlib, eob_header_chksum_calc, eob_header_chksum_is_ok}
use eoblock.Types.{is_b_true}
use native.Mathlib.Nat.{pow-le-pow_right}
use eoblock.Header.{Header, FitsHeader, encode, encode_preamble, header_zero}
use eoblock.Header.RoundTrip.{length-encode, decode-encode}
use eoblock.HeaderIo.{
  eob_hdr_magic, eob_hdr_version, verdict, eob_read_header, eob_device_read_header,
}
use eoblock.HeaderIo.Laws.{
  IsDevice, IsGood, seen, settled, FitsHeader-seen, verdict-IsGood, eob_read_header-calm,
}
use eoblock.Admin.Registry.{FitsHeader-header_zero}
use eoblock.System.{World, ok, calm}
use eoblock.System.Disk.{overlay, write_at, read_at-write_at, take-overlay, length-overlay}
use eoblock.Header.{decode}
use eoblock.Prelude.{
  ℕ, ◌^◌, ◌≤◌, ◌<◌, ◌≡◌, ◌≢◌, ◌⊎◌, inl, inr, refl, ap, ◌∙◌, arith, Bool, true, false, List, none,
  some, length, ◌==◌, eq→==, lt→ltb, le→leb, le→ltb, ◌&&◌, take_all, Bool-cases,
}

-- A device on the way to be opened: the shifts of its address are those of an `int`, and its buffer
-- is one block, large enough for a header.
pub record IsOpening (dev : Device) : Type 0 where
  pub opened : 0 < dev.fd
  pub virt : dev.addr.virt_blk_shift < 31
  pub phys : dev.addr.phys_blk_shift < 31
  pub nodes : dev.addr.nodes_count < 256
  pub buffer : length dev.phys_buff ≡ 2 ^ dev.addr.phys_blk_shift
  pub sector : 512 ≤ 2 ^ dev.addr.phys_blk_shift

pub one_shl-small : (s : ℕ) (w : World) → s < 31 → one_shl s w ≡ (ok (2 ^ s), w)
one_shl-small s w h = rw (lt→ltb s 31 h) refl

two_pow-small : (s : ℕ) → s < 31 → 2 ^ s < 256 ^ 8
two_pow-small s h =
    omega (arith, pow-le-pow_right {n = 2} (omega arith) {i = s} {j = 30} (omega arith))

verdict-cases :
    (z : Zlib) (hdr : Header)
    → (verdict z hdr ≡ none) ⊎ ((verdict z hdr ≡ some eob_ok) ⊎ (verdict z hdr ≡ some eob_ver_mism))
unfolding verdict
verdict-cases z hdr =
    elim (Bool-cases
      (is_b_true (eob_header_chksum_is_ok z hdr) && (eob_hdr_magic == hdr.h.magic))) [
        | inl sum ↦ rw sum (elim (Bool-cases (eob_hdr_version == hdr.h.version)) [
          | inl same ↦ rw same (inr (inl refl))
          | inr other ↦ rw other (inr (inr refl))
        ])
        | inr wrong ↦ rw wrong (inl refl)
      ]

module _ (z : Zlib) {dev : Device} (g : IsOpening dev) {d : List ℕ} (v : IsDevice d) where
  read-calm :
      eob_device_read_header z dev.fd header_zero (calm d)
      ≡ (ok (record { rv = settled (verdict z (seen d)); hdr = seen d }), calm d)
  unfolding eob_device_read_header eob_read_header
  read-calm = eob_read_header-calm z v dev.fd g.opened FitsHeader-header_zero

  -- On a calm device with a good header that has the sizes of the address, the header is taken as
  -- it is and the device is not written. The block of the device is no larger than that of a node.
  pub eob_device_init_hdr_adopts :
      IsGood z (seen d)
      → (seen d).h.phys_blk_size ≡ 2 ^ dev.addr.phys_blk_shift
      → (seen d).h.virt_blk_size ≡ 2 ^ dev.addr.virt_blk_shift
      → dev.addr.phys_blk_shift ≤ dev.addr.virt_blk_shift
      → eob_device_init_hdr z dev false (calm d) ≡ (ok (record dev { hdr = seen d }), calm d)
  unfolding eob_device_init_hdr adopt
  eob_device_init_hdr_adopts good phys virt order = rw read-calm (
      rw (verdict-IsGood z good) (
        rw (one_shl-small dev.addr.phys_blk_shift (calm d) g.phys) (
          rw (eq→== (seen d).h.phys_blk_size (2 ^ dev.addr.phys_blk_shift) phys) (
            rw (one_shl-small dev.addr.virt_blk_shift (calm d) g.virt) (
              rw (eq→== (seen d).h.virt_blk_size (2 ^ dev.addr.virt_blk_shift) virt) (
                rw
                  (le→ltb (seen d).h.virt_blk_size (seen d).h.phys_blk_size
                    (omega (arith, phys, virt, pow-le-pow_right {n = 2} (omega arith) order)))
                  refl))))))

  -- The header that is written, and what is written with it.
  abbrev pub next : Header
  next =
      eob_header_chksum_calc z
        (renewed dev.addr (2 ^ dev.addr.virt_blk_shift) (2 ^ dev.addr.phys_blk_shift) (seen d))

  abbrev pub buffer : List ℕ
  buffer = overlay (encode next) (cleared dev)

  FitsHeader-next : FitsHeader next
  unfolding eob_header_chksum_calc
  FitsHeader-next =
      let old : FitsHeader (seen d) = FitsHeader-seen d v in
      record {
        preamble = record {
          magic = omega arith;
          version = omega arith;
          phys = two_pow-small dev.addr.phys_blk_shift g.phys;
          virt = two_pow-small dev.addr.virt_blk_shift g.virt;
          count = omega (arith, g.nodes);
          table = old.preamble.table;
          nodes = old.preamble.nodes;
        };
        padding = old.padding;
        padding_bytes = old.padding_bytes;
        chksum = omega (arith, z.crc32-lt (encode_preamble next.h));
      }

  length-buffer : 512 ≤ length buffer
  length-buffer =
      omega (arith, length-overlay (encode next) (cleared dev), length-encode FitsHeader-next)

  write-calm :
      eob_device_write_header dev next (calm d)
      ≡ (ok (record dev { phys_buff = buffer }), calm (write_at 0 buffer d))
  unfolding eob_device_write_header eob_header_chksum_calc
  write-calm = rw (lt→ltb 0 dev.fd g.opened) (
      rw (eq→== (length dev.phys_buff) (2 ^ dev.addr.phys_blk_shift) g.buffer)
        (rw (le→leb 512 (length dev.phys_buff) (omega (arith, g.buffer, g.sector))) refl))

  renew-calm :
      renew z dev (seen d) (calm d)
      ≡ (ok (record dev { hdr = next; phys_buff = buffer }), calm (write_at 0 buffer d))
  unfolding renew
  renew-calm =
      rw (one_shl-small dev.addr.virt_blk_shift (calm d) g.virt)
        (rw (one_shl-small dev.addr.phys_blk_shift (calm d) g.phys) (rw write-calm refl))

  seen-buffer : seen (write_at 0 buffer d) ≡ next
  unfolding seen
  seen-buffer =
      ap decode (
        read_at-write_at 0 512 buffer d length-buffer
        ∙ take-overlay 512 (encode next) (cleared dev)
            (omega (arith, length-encode FitsHeader-next))
        ∙ take_all 512 (encode next) (omega (arith, length-encode FitsHeader-next)))
      ∙ decode-encode FitsHeader-next

  IsGood-next : IsGood z next
  unfolding eob_header_chksum_calc
  IsGood-next = record { fits = FitsHeader-next; sum = refl; magic = refl; version = refl }

  kept : next.h.nodes ≡ (seen d).h.nodes
  unfolding eob_header_chksum_calc
  kept = refl

  written_anew :
      (force : Bool)
      → (settled (verdict z (seen d)) ≢ eob_ok) ⊎ (force ≡ true)
      → eob_device_init_hdr z dev force (calm d)
        ≡ (ok (record dev { hdr = next; phys_buff = buffer }), calm (write_at 0 buffer d))
  unfolding eob_device_init_hdr
  written_anew force why = rw read-calm (elim (verdict-cases z (seen d)) [
    | inl missing ↦ rw missing renew-calm
    | inr (inl good) ↦
        rw good (elim why [
          | inl bad ↦ absurd (bad (ap settled good))
          | inr forced ↦ rw forced renew-calm
        ])
    | inr (inr old) ↦ rw old renew-calm
  ])

  -- On a calm device whose header is not good, or by force, a header with the sizes of the address
  -- is written. It is good, it is the header that is read from then on, and it keeps the table of
  -- nodes as it was read.
  pub eob_device_init_hdr_renews :
      (force : Bool)
      → (settled (verdict z (seen d)) ≢ eob_ok) ⊎ (force ≡ true)
      → (eob_device_init_hdr z dev force (calm d)
          ≡ (ok (record dev { hdr = next; phys_buff = buffer }), calm (write_at 0 buffer d)))
        × (seen (write_at 0 buffer d) ≡ next)
        × IsGood z next
        × (next.h.nodes ≡ (seen d).h.nodes)
  eob_device_init_hdr_renews force why = (written_anew force why, seen-buffer, IsGood-next, kept)
