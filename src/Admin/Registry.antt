-- ===== src/Admin/Registry.antt =====
-- A device with a good header, which `rewrite` of a node keeps good.
use eoblock.Admin.{put_node, rewrite}
use eoblock.Admin.Spec
use eoblock.Admin.Spec.{Members, members, is_none, if_present}
use eoblock.Chksum.{Zlib, eob_header_chksum_calc}
use eoblock.Header.{NodeData, Header, FitsNode, FitsNodes, FitsHeader, header_zero, encode_preamble}
use eoblock.HeaderIo.Laws.{IsDevice, IsGood, seen}
use eoblock.HeaderIo.Write.{
  header_block, length-header_block, seen-write, IsDevice-write, eob_write_header-calm,
}
use eoblock.System.{ok, calm}
use eoblock.System.Disk.{read_at, write_at, read_at-write_at_after, length-write_at}
use eoblock.Prelude.{
  ℕ, zero, suc, ◌≤◌, ◌<◌, ◌≡◌, refl, sym, ap, ◌∙◌, arith, Bool-cases, inl, inr, List, [], ◌∷◌, some,
  length, length-set, get_elem?, set, get_elem?-set_self, get_elem?-set_ne, AllBytes-zeros, ◌==◌,
  ==_iff,
}

-- The all-zero header that the operations read into.
pub FitsHeader-header_zero : FitsHeader header_zero
unfolding header_zero
FitsHeader-header_zero = record {
  preamble = record {
    magic = omega arith;
    version = omega arith;
    phys = omega arith;
    virt = omega arith;
    count = omega arith;
    table = refl;
    nodes = omega arith;
  };
  padding = refl;
  padding_bytes = AllBytes-zeros 208;
  chksum = omega arith;
}

FitsNodes-set :
    (ns : List NodeData) (i : ℕ) (n : NodeData) → FitsNode n → FitsNodes ns → FitsNodes (set ns i n)
FitsNodes-set [] i n h f = tt
FitsNodes-set (m ∷ ns) zero n h f = (h, f.1)
FitsNodes-set (m ∷ ns) (suc i) n h f = (f.0, FitsNodes-set ns i n h f.1)

pub get_elem?-lt {ℓ} :
    {A : Type ℓ} (xs : List A) (i : ℕ) → i < length xs → (x : A) × (get_elem? xs i ≡ some x)
get_elem?-lt [] i h = elim h [ ]
get_elem?-lt (x ∷ xs) zero h = (x, refl)
get_elem?-lt (x ∷ xs) (suc i) h = get_elem?-lt xs i (omega arith)

module _ (z : Zlib) where
  -- A device that `eob_hdr_init` has set up, and the operations have kept so.
  pub record IsRegistry (d : List ℕ) : Type 0 where
    pub device : IsDevice d
    pub good : IsGood z (seen d)
    pub room : 512 ≤ (seen d).h.phys_blk_size
    pub capacity : (seen d).h.nodes_count ≤ 32

  module _ {d : List ℕ} (reg : IsRegistry d) (i : ℕ) (n : NodeData) (fits : FitsNode n) where
    -- The header that `rewrite` puts on the device.
    abbrev pub next : Header
    next = eob_header_chksum_calc z (put_node i n (seen d))

    pub FitsHeader-next : FitsHeader next
    unfolding eob_header_chksum_calc
    FitsHeader-next = record {
      preamble = record {
        magic = old.preamble.magic;
        version = old.preamble.version;
        phys = old.preamble.phys;
        virt = old.preamble.virt;
        count = old.preamble.count;
        table = length-set (seen d).h.nodes i n ∙ old.preamble.table;
        nodes = FitsNodes-set (seen d).h.nodes i n fits old.preamble.nodes;
      };
      padding = old.padding;
      padding_bytes = old.padding_bytes;
      chksum = omega (arith, z.crc32-lt (encode_preamble (put_node i n (seen d)).h));
    }
      where
        old : FitsHeader (seen d)
        old = reg.good.fits

    IsGood-next : IsGood z next
    unfolding eob_header_chksum_calc
    IsGood-next = record {
      fits = FitsHeader-next;
      sum = refl;
      magic = reg.good.magic;
      version = reg.good.version;
    }

    pub room-next : 512 ≤ next.h.phys_blk_size
    unfolding eob_header_chksum_calc
    room-next = reg.room

    pub after : List ℕ
    after = write_at 0 (header_block next) d

    -- The rewritten device is good again, and holds the new header.
    pub rewrite-calm :
        (fd : ℕ) → 0 < fd → rewrite z fd (put_node i n (seen d)) (calm d) ≡ (ok tt, calm after)
    unfolding after
    rewrite-calm fd opened = rw (eob_write_header-calm FitsHeader-next room-next fd d opened)

    -- With blocks of 512 bytes the bytes behind the header stay.
    pub read_at-after :
        (seen d).h.phys_blk_size ≡ 512 → (o m : ℕ) → 512 ≤ o → read_at o m after ≡ read_at o m d
    unfolding after eob_header_chksum_calc
    read_at-after sector o m behind =
        read_at-write_at_after o m 0 (header_block next) d
          (omega (arith, sector, behind, length-header_block FitsHeader-next room-next))

    pub length-after : (seen d).h.phys_blk_size ≡ 512 → length after ≡ length d
    unfolding after eob_header_chksum_calc
    length-after sector =
        let size : length (header_block next) ≡ 512 =
          length-header_block FitsHeader-next room-next ∙ sector in
        omega (
          arith,
          size,
          reg.device.size,
          length-write_at 0 (header_block next) d (omega (arith, size)),
        )

    pub seen-after : seen after ≡ next
    unfolding after
    seen-after = seen-write FitsHeader-next room-next d

    pub IsRegistry-after : IsRegistry after
    unfolding after eob_header_chksum_calc
    IsRegistry-after = record {
      device = IsDevice-write FitsHeader-next room-next d reg.device.bytes;
      good = rw seen-after IsGood-next;
      room = rw seen-after reg.room;
      capacity = rw seen-after reg.capacity;
    }

    pub members-after :
        (j : ℕ)
        → i < 32
        → members (seen after) j ≡ Spec.update (members (seen d)) i (if_present (some n)) j
    unfolding eob_header_chksum_calc
    members-after j h = rw seen-after (elim (Bool-cases (j == i)) [
      | inl same ↦
          let e : j ≡ i = (==_iff j i).0 same in
          rw same (
            rw e (
              ap if_present (
                get_elem?-set_self (seen d).h.nodes i n
                  (omega (arith, reg.good.fits.preamble.table)))))
      | inr other ↦ rw other (
          ap if_present
            (get_elem?-set_ne (seen d).h.nodes i j n (λ e. cc ((==_iff j i).1 (sym e)))))
    ])
