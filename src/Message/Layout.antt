-- ===== src/Message/Layout.antt =====
-- include/eoblock.h: `struct eob_packet_512` and its like, as values and as bytes: 24 bytes of head,
-- the data, and 8 bytes of tail.
use eoblock.Prelude.{
  ℕ, ◌+◌, ◌^◌, ◌<◌, ◌≡◌, refl, sym, ap, ◌∙◌, arith, List, [], ◌∷◌, ◌++◌, length, take, drop,
  length-append, take-append, drop-append, drop-drop, le_bytes, le_value, le_value-le_bytes,
  AllBytes, AllBytes-append, AllBytes-le_bytes-append, le_bytes-AllBytes,
}
use eoblock.Device.{HwAddr}

pub record Packet : Type 0 where
  pub src_addr : HwAddr
  pub data_len : ℕ
  pub dat : List ℕ
  pub chksum : ℕ

-- EOB_PKT_NDATA_LEN: the head holds an address of 16 bytes and a length, the tail a checksum.
abbrev pub eob_pkt_ndata_len : ℕ
eob_pkt_ndata_len = 16 + 8 + 8

encode_addr : HwAddr → List ℕ
encode_addr a = a.node_id ∷ a.nodes_count ∷ a.virt_blk_shift ∷ a.phys_blk_shift ∷ a.rest

decode_addr : List ℕ → HwAddr
decode_addr (a ∷ b ∷ c ∷ e ∷ r) = record {
  node_id = a;
  nodes_count = b;
  virt_blk_shift = c;
  phys_blk_shift = e;
  rest = r;
}
decode_addr _ = record {
  node_id = 0;
  nodes_count = 0;
  virt_blk_shift = 0;
  phys_blk_shift = 0;
  rest = [];
}

unfoldable pub encode_packet : Packet → List ℕ
unfolding encode_addr
encode_packet p =
    encode_addr p.src_addr ++ (le_bytes 8 p.data_len ++ (p.dat ++ le_bytes 8 p.chksum))

-- The structure with room for `size` bytes of data.
unfoldable pub decode_packet : ℕ → List ℕ → Packet
unfolding decode_addr
decode_packet size bs = record {
  src_addr = decode_addr (take 16 bs);
  data_len = le_value (take 8 (drop 16 bs));
  dat = take size (drop 24 bs);
  chksum = le_value (take 8 (drop (24 + size) bs));
}

-- The values that the structure can hold.
pub record FitsPacket (size : ℕ) (p : Packet) : Type 0 where
  pub addr : length p.src_addr.rest ≡ 12
  pub len : p.data_len < 256 ^ 8
  pub room : length p.dat ≡ size
  pub chksum : p.chksum < 256 ^ 8

module _ {size : ℕ} {p : Packet} (f : FitsPacket size p) where
  abbrev last : List ℕ
  last = le_bytes 8 p.chksum

  abbrev body : List ℕ
  body = p.dat ++ last

  abbrev tail : List ℕ
  tail = le_bytes 8 p.data_len ++ body

  pub length-encode_packet : length (encode_packet p) ≡ size + 32
  unfolding encode_packet encode_addr
  length-encode_packet =
      omega (
        arith,
        f.addr,
        f.room,
        length-append {0} p.src_addr.rest tail,
        length-append {0} p.dat last,
      )

  drop-addr : drop 12 (p.src_addr.rest ++ tail) ≡ tail
  drop-addr = drop-append 12 p.src_addr.rest tail f.addr

  drop-head : drop 20 (p.src_addr.rest ++ tail) ≡ body
  drop-head = sym (drop-drop {0} 12 8 (p.src_addr.rest ++ tail)) ∙ ap (drop 8) drop-addr ∙ refl

  drop-body : drop (24 + size) (encode_packet p) ≡ last
  unfolding encode_packet encode_addr
  drop-body =
      sym (drop-drop 24 size (encode_packet p))
      ∙ ap (drop size) drop-head
      ∙ drop-append size p.dat last f.room

  decode-rest : take 12 (p.src_addr.rest ++ tail) ≡ p.src_addr.rest
  decode-rest = take-append 12 p.src_addr.rest tail f.addr

  decode-len : le_value (take 8 (drop 12 (p.src_addr.rest ++ tail))) ≡ p.data_len
  decode-len = ap (λ bs. le_value (take 8 bs)) drop-addr ∙ le_value-le_bytes 8 p.data_len f.len

  decode-dat : take size (drop 20 (p.src_addr.rest ++ tail)) ≡ p.dat
  decode-dat = ap (take size) drop-head ∙ take-append size p.dat last f.room

  decode-chksum : le_value (take 8 (drop (24 + size) (encode_packet p))) ≡ p.chksum
  decode-chksum = ap (λ bs. le_value (take 8 bs)) drop-body ∙ le_value-le_bytes 8 p.chksum f.chksum

  -- Reading back the bytes of a packet that fits its structure gives the packet.
  pub decode_packet-encode_packet : decode_packet size (encode_packet p) ≡ p
  unfolding decode_packet encode_packet encode_addr decode_addr
  decode_packet-encode_packet i = record {
    src_addr = record p.src_addr { rest = decode-rest i };
    data_len = decode-len i;
    dat = decode-dat i;
    chksum = decode-chksum i;
  }

-- The bytes of an address.
abbrev pub addr_bytes : HwAddr → List ℕ
addr_bytes a = a.node_id ∷ a.nodes_count ∷ a.virt_blk_shift ∷ a.phys_blk_shift ∷ a.rest

pub AllBytes-encode_packet :
    (p : Packet) → AllBytes (addr_bytes p.src_addr) → AllBytes p.dat → AllBytes (encode_packet p)
unfolding encode_packet encode_addr
AllBytes-encode_packet p a h = AllBytes-append (addr_bytes p.src_addr) _ a (
    AllBytes-le_bytes-append 8 p.data_len _
      (AllBytes-append p.dat _ h (le_bytes-AllBytes 8 p.chksum)))
