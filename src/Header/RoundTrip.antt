-- ===== src/Header/RoundTrip.antt =====
-- The bytes of a header determine it, and it has 512 of them.
use eoblock.Header.{
  NodeData, Preamble, Header, FitsNode, FitsNodes, FitsPreamble, FitsHeader, encode_node,
  encode_nodes, encode_preamble, encode, decode_node, decode_nodes, decode,
}
use eoblock.Prelude.{
  ℕ, ◌*◌, ◌≡◌, refl, sym, ap, ap₂, ◌∙◌, arith, List, [], ◌∷◌, ◌++◌, length, take, drop,
  length-append, take-append, drop-append, drop-drop, le_bytes, le_value, le_value-le_bytes,
  AllBytes, AllBytes-append, AllBytes-le_bytes-append, le_bytes-AllBytes,
}

length-encode_node : (n : NodeData) → length (encode_node n) ≡ 8
unfolding encode_node
length-encode_node n = refl

length-encode_nodes : (ns : List NodeData) → length (encode_nodes ns) ≡ 8 * length ns
unfolding encode_nodes
length-encode_nodes [] = refl
length-encode_nodes (n ∷ ns) = omega (arith, length-encode_nodes ns)

decode_node-encode_node :
    (n : NodeData) (rest : List ℕ) → FitsNode n → decode_node (encode_node n ++ rest) ≡ n
unfolding decode_node encode_node
decode_node-encode_node n rest h = λ i. record {
  flags = le_value-le_bytes 4 n.flags h.0 i;
  ip_addr = le_value-le_bytes 4 n.ip_addr h.1 i;
}

decode_nodes-encode_nodes :
    (ns : List NodeData) (rest : List ℕ)
    → FitsNodes ns
    → decode_nodes (length ns) (encode_nodes ns ++ rest) ≡ ns
unfolding decode_nodes encode_nodes
decode_nodes-encode_nodes [] rest h = refl
decode_nodes-encode_nodes (n ∷ ns) rest h =
    ap₂ ◌∷◌ (decode_node-encode_node n rest h.0) (decode_nodes-encode_nodes ns rest h.1)

length-encode_preamble : {p : Preamble} → FitsPreamble p → length (encode_preamble p) ≡ 296
unfolding encode_preamble
length-encode_preamble {p} f = omega (arith, length-encode_nodes p.nodes, f.table)

pub length-encode : {hdr : Header} → FitsHeader hdr → length (encode hdr) ≡ 512
unfolding encode
length-encode {hdr} f = omega (
  arith,
  length-append {0} (encode_preamble hdr.h) (hdr.padding ++ le_bytes 8 hdr.chksum),
  length-append {0} hdr.padding (le_bytes 8 hdr.chksum),
  length-encode_preamble f.preamble,
  f.padding,
)

module _ {hdr : Header} (f : FitsHeader hdr) where
  -- What follows the node table.
  abbrev tail : List ℕ
  tail = hdr.padding ++ le_bytes 8 hdr.chksum

  nodes-front : decode_nodes 32 (encode_nodes hdr.h.nodes ++ tail) ≡ hdr.h.nodes
  nodes-front = rw f.preamble.table at (decode_nodes-encode_nodes hdr.h.nodes tail f.preamble.nodes)

  nodes-skip : drop 256 (encode_nodes hdr.h.nodes ++ tail) ≡ tail
  nodes-skip =
      drop-append 256 (encode_nodes hdr.h.nodes) tail
        (omega (arith, length-encode_nodes hdr.h.nodes, f.preamble.table))

  chksum-front : drop 464 (encode_nodes hdr.h.nodes ++ tail) ≡ le_bytes 8 hdr.chksum
  chksum-front =
      sym (drop-drop 256 208 (encode_nodes hdr.h.nodes ++ tail))
      ∙ (ap (drop 208) nodes-skip ∙ drop-append 208 hdr.padding (le_bytes 8 hdr.chksum) f.padding)

  -- Reading back the bytes of a header whose values fit the structure gives the header.
  pub decode-encode : decode (encode hdr) ≡ hdr
  unfolding decode encode encode_preamble
  decode-encode = λ i. record {
    h = record {
      magic = le_value-le_bytes 8 hdr.h.magic f.preamble.magic i;
      version = le_value-le_bytes 8 hdr.h.version f.preamble.version i;
      phys_blk_size = le_value-le_bytes 8 hdr.h.phys_blk_size f.preamble.phys i;
      virt_blk_size = le_value-le_bytes 8 hdr.h.virt_blk_size f.preamble.virt i;
      nodes_count = le_value-le_bytes 8 hdr.h.nodes_count f.preamble.count i;
      nodes = nodes-front i;
    };
    padding =
        (ap (take 208) nodes-skip ∙ take-append 208 hdr.padding (le_bytes 8 hdr.chksum) f.padding)
          i;
    chksum =
        (ap (λ bs. le_value (take 8 bs)) chksum-front ∙ le_value-le_bytes 8 hdr.chksum f.chksum) i;
  }

AllBytes-encode_nodes : (ns : List NodeData) → AllBytes (encode_nodes ns)
unfolding encode_nodes encode_node
AllBytes-encode_nodes [] = tt
AllBytes-encode_nodes (n ∷ ns) =
    AllBytes-append (encode_node n) (encode_nodes ns)
      (AllBytes-le_bytes-append 4 n.flags (le_bytes 4 n.ip_addr) (le_bytes-AllBytes 4 n.ip_addr))
      (AllBytes-encode_nodes ns)

AllBytes-encode_preamble : (p : Preamble) → AllBytes (encode_preamble p)
unfolding encode_preamble
AllBytes-encode_preamble p =
    let count = le_bytes 8 p.nodes_count ++ encode_nodes p.nodes in
    let virt = le_bytes 8 p.virt_blk_size ++ count in
    let phys = le_bytes 8 p.phys_blk_size ++ virt in
    let version = le_bytes 8 p.version ++ phys in
    AllBytes-le_bytes-append 8 p.magic version (
      AllBytes-le_bytes-append 8 p.version phys (
        AllBytes-le_bytes-append 8 p.phys_blk_size virt (
          AllBytes-le_bytes-append 8 p.virt_blk_size count (
            AllBytes-le_bytes-append 8 p.nodes_count (encode_nodes p.nodes)
              (AllBytes-encode_nodes p.nodes)))))

pub AllBytes-encode : {hdr : Header} → FitsHeader hdr → AllBytes (encode hdr)
unfolding encode
AllBytes-encode {hdr} f =
    AllBytes-append (encode_preamble hdr.h) (hdr.padding ++ le_bytes 8 hdr.chksum)
      (AllBytes-encode_preamble hdr.h)
      (AllBytes-append hdr.padding (le_bytes 8 hdr.chksum) f.padding_bytes
        (le_bytes-AllBytes 8 hdr.chksum))
