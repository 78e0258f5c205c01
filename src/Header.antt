-- ===== src/Header.antt =====
-- include/eoblock.h: the header at the start of the device, as a structure and as its 512 bytes.
pub mod RoundTrip
pub mod Decode
pub mod Exact
use eoblock.Prelude.{
  ℕ, zero, suc, ◌+◌, ◌^◌, ◌<◌, ◌≡◌, List, [], ◌∷◌, ◌++◌, length, take, drop, replicate, le_bytes,
  le_value, AllBytes,
}

pub record NodeData : Type 0 where
  pub flags : ℕ
  pub ip_addr : ℕ

pub record Preamble : Type 0 where
  pub magic : ℕ
  pub version : ℕ
  pub phys_blk_size : ℕ
  pub virt_blk_size : ℕ
  pub nodes_count : ℕ
  pub nodes : List NodeData

pub record Header : Type 0 where
  pub h : Preamble
  pub padding : List ℕ
  pub chksum : ℕ

abbrev pub max_cluster_size : ℕ
max_cluster_size = 32

abbrev pub eob_default_blk_size : ℕ
eob_default_blk_size = 4096

-- sizeof(struct eob_header); of its bytes 296 are the preamble, 208 are padding, 8 the checksum.
abbrev pub eob_hdr_size : ℕ
eob_hdr_size = 512

pub encode_node : NodeData → List ℕ
encode_node n = le_bytes 4 n.flags ++ le_bytes 4 n.ip_addr

pub encode_nodes : List NodeData → List ℕ
unfolding encode_node
encode_nodes [] = []
encode_nodes (n ∷ ns) = encode_node n ++ encode_nodes ns

-- The bytes of `hdr->h`, over which the checksum is taken.
unfoldable pub encode_preamble : Preamble → List ℕ
unfolding encode_nodes
encode_preamble p =
    le_bytes 8 p.magic
    ++ (le_bytes 8 p.version
        ++ (le_bytes 8 p.phys_blk_size
            ++ (le_bytes 8 p.virt_blk_size ++ (le_bytes 8 p.nodes_count ++ encode_nodes p.nodes))))

unfoldable pub encode : Header → List ℕ
unfolding encode_preamble
encode hdr = encode_preamble hdr.h ++ (hdr.padding ++ le_bytes 8 hdr.chksum)

pub decode_node : List ℕ → NodeData
decode_node bs = record { flags = le_value (take 4 bs); ip_addr = le_value (take 4 (drop 4 bs)) }

pub decode_nodes : ℕ → List ℕ → List NodeData
unfolding decode_node
decode_nodes zero bs = []
decode_nodes (suc n) bs = decode_node bs ∷ decode_nodes n (drop 8 bs)

unfoldable pub decode : List ℕ → Header
unfolding decode_nodes
decode bs = record {
  h = record {
    magic = le_value (take 8 bs);
    version = le_value (take 8 (drop 8 bs));
    phys_blk_size = le_value (take 8 (drop 16 bs));
    virt_blk_size = le_value (take 8 (drop 24 bs));
    nodes_count = le_value (take 8 (drop 32 bs));
    nodes = decode_nodes max_cluster_size (drop 40 bs);
  };
  padding = take 208 (drop 296 bs);
  chksum = le_value (take 8 (drop 504 bs));
}

abbrev pub node_zero : NodeData
node_zero = record { flags = 0; ip_addr = 0 }

-- `struct eob_header hdr = {{0}}`
unfoldable pub header_zero : Header
header_zero = record {
  h = record {
    magic = 0;
    version = 0;
    phys_blk_size = 0;
    virt_blk_size = 0;
    nodes_count = 0;
    nodes = replicate max_cluster_size node_zero;
  };
  padding = replicate 208 0;
  chksum = 0;
}

abbrev pub FitsNode : NodeData → Type 0
FitsNode n = (n.flags < 256 ^ 4) × (n.ip_addr < 256 ^ 4)

abbrev pub FitsNodes : List NodeData → Type 0
FitsNodes [] = Unit
FitsNodes (n ∷ ns) = FitsNode n × FitsNodes ns

-- The values that the C structures can hold.
pub record FitsPreamble (p : Preamble) : Type 0 where
  pub magic : p.magic < 256 ^ 8
  pub version : p.version < 256 ^ 8
  pub phys : p.phys_blk_size < 256 ^ 8
  pub virt : p.virt_blk_size < 256 ^ 8
  pub count : p.nodes_count < 256 ^ 8
  pub table : length p.nodes ≡ max_cluster_size
  pub nodes : FitsNodes p.nodes

pub record FitsHeader (hdr : Header) : Type 0 where
  pub preamble : FitsPreamble hdr.h
  pub padding : length hdr.padding ≡ 208
  pub padding_bytes : AllBytes hdr.padding
  pub chksum : hdr.chksum < 256 ^ 8
