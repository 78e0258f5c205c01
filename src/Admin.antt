-- ===== src/Admin.antt =====
-- lib/liboblock.c: the operations of the administrator on the header, `eob_hdr_*`.
-- An `int` argument enters as its conversion to `uint64_t`, with which the code compares it.
pub mod Spec
pub mod Registry
pub mod Laws
pub mod Init
pub mod Race
pub mod Requests
pub mod Behind
pub mod Formatted
use Prim.Native.Nat.{bit_and}
use eoblock.Prelude.{
  ℕ, suc, Bool, ◌&&◌, [], ◌∷◌, not, Option, none, some, List, get_elem?, set, ltb, leb, ◌==◌,
  if◌then◌else◌,
}
use eoblock.Errors.{eob_inval}
use eoblock.Macros.{p2_phase}
use eoblock.System.{M, pwrite, pure, set_err, undefined, verify, traced, trace_rv, ◌>>=◌, ◌>>◌}
use eoblock.Header.{
  NodeData, Header, encode, node_zero, header_zero, max_cluster_size, eob_default_blk_size,
}
use eoblock.Chksum.{Zlib, eob_header_chksum_calc}
use eoblock.HeaderIo.{
  eob_hdr_version, eob_hdr_magic, eob_header_offset, io_result, eob_write_header, eob_read_header,
}

-- EOB_NODE_IS_PRESENT
abbrev pub is_present : NodeData → Bool
is_present n = not (bit_and n.flags 1 == 0)

-- `x == 0 ? d : x`
abbrev pub or_default : ℕ → ℕ → ℕ
or_default x d = if x == 0 then d else x

abbrev from_table : Option NodeData → M NodeData
from_table none = undefined
from_table (some n) = pure n

-- `hdr.h.nodes[i]`, which only an index in the array defines.
abbrev node_at : ℕ → Header → M NodeData
node_at i hdr = from_table (get_elem? hdr.h.nodes i)

-- `hdr.h.nodes[i] = n`
abbrev pub put_node : ℕ → NodeData → Header → Header
put_node i n hdr = record hdr { h = record (hdr.h) { nodes = set hdr.h.nodes i n } }

-- What eob_hdr_init writes.
unfoldable pub initial : ℕ → ℕ → ℕ → Header
initial count virt phys = record header_zero {
  h = record (header_zero.h) {
    nodes_count = count;
    virt_blk_size = virt;
    phys_blk_size = phys;
    version = eob_hdr_version;
    magic = eob_hdr_magic;
  };
}

-- The values that the text of eob_hdr_dump is printed from; a node is its number, its address and
-- whether it is present.
pub record Dump : Type 0 where
  pub header : Header
  pub nodes : List (ℕ × ℕ × Bool)

abbrev eob_dump_nodes : ℕ → List NodeData → List (ℕ × ℕ × Bool)
eob_dump_nodes i [] = []
eob_dump_nodes i (n ∷ ns) = (i, n.ip_addr, is_present n) ∷ eob_dump_nodes (suc i) ns

module _ (z : Zlib) where
  unfoldable pub eob_hdr_init : ℕ → ℕ → ℕ → ℕ → M (Unit {0})
  eob_hdr_init fd nodes_count virt_blk_size phys_blk_size = do
    let count = or_default nodes_count max_cluster_size
    let virt = or_default virt_blk_size eob_default_blk_size
    let phys = or_default phys_blk_size eob_default_blk_size
    verify (leb phys virt)
    verify (p2_phase virt phys == 0)
    traced (eob_write_header fd (eob_header_chksum_calc z (initial count virt phys)))

  unfoldable pub eob_hdr_deinit : M (Unit {0})
  unfolding pwrite
  eob_hdr_deinit = do rv ← pwrite eob_header_offset (encode header_zero); io_result rv

  -- The header with its new checksum, written back.
  abbrev pub rewrite : ℕ → Header → M (Unit {0})
  rewrite fd hdr = traced (eob_write_header fd (eob_header_chksum_calc z hdr))

  unfoldable pub eob_hdr_add_device : ℕ → ℕ → NodeData → Bool → M (Unit {0})
  eob_hdr_add_device fd node_id dat force = do
    r ← eob_read_header z fd header_zero
    trace_rv r.rv
    if leb r.hdr.h.nodes_count node_id then set_err eob_inval else do
      n ← node_at node_id r.hdr
      if not force && is_present n
          then set_err eob_inval
          else rewrite fd (put_node node_id dat r.hdr)

  unfoldable pub eob_hdr_rem_device : ℕ → ℕ → M (Unit {0})
  eob_hdr_rem_device fd node_id = do
    r ← eob_read_header z fd header_zero
    trace_rv r.rv
    n ← node_at node_id r.hdr
    if not (is_present n) then pure tt else rewrite fd (put_node node_id node_zero r.hdr)

  unfoldable pub eob_hdr_dump : ℕ → M Dump
  eob_hdr_dump fd = do
    r ← eob_read_header z fd header_zero
    trace_rv r.rv
    pure (record { header = r.hdr; nodes = eob_dump_nodes 0 r.hdr.h.nodes })
