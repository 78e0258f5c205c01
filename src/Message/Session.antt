-- ===== src/Message/Session.antt =====
-- Two programs on one device: the first opens it as a node and sends a string, the second opens it as
-- the node that the string is for and receives it.
use native.Mathlib.Nat.{pow-le-pow_right}
use eoblock.Chksum.{Zlib}
use eoblock.Device.{HwAddr, Device, eob_device_open_file}
use eoblock.Device.Adopt.{IsAddress, HasHeader, opened_device, eob_device_open_file-adopts}
use eoblock.HeaderIo.Laws.{seen}
use eoblock.HeaderIo.Write.{AllBytes-write_at, AllBytes-overlay}
use eoblock.System.{ok, calm, ◌>>=◌, M, continue}
use eoblock.System.Disk.{read_at, write_at, read_at-write_at_before, length-write_at}
use eoblock.Header.{decode}
use eoblock.Buff.{slot_offset}
use eoblock.Buff.Transfer.{slot}
use eoblock.Message.{packet_of, send_size, eob_device_send_str, eob_device_recv_str}
use eoblock.Message.Calm.{Carries, packet_of-Fits, virt-eq, size-small}
use eoblock.Message.Delivery.{NoNul, sent-fits, slot_offset-flat, eob_device_recv_str-send_str}
use eoblock.Message.Layout.{encode_packet, length-encode_packet, addr_bytes, AllBytes-encode_packet}
use eoblock.Prelude.{
  suc, ℕ, ◌+◌, ◌*◌, ◌^◌, ◌≤◌, ◌<◌, ◌≡◌, sym, ap, ◌∙◌, arith, false, List, [], ◌∷◌, ◌++◌, some,
  length, AllBytes, AllBytes-zeros, AllBytes-append, replicate, length-append, Option,
}

-- The address of a node: a byte each for its numbers, and sixteen bytes in all.
pub record IsNode (addr : HwAddr) : Type 0 where
  pub address : IsAddress addr
  pub bytes : AllBytes (addr_bytes addr)
  pub rest : length addr.rest ≡ 12

-- Two nodes that agree on the sizes of the blocks, which can carry packets of `size` bytes.
pub record Agree (a b : HwAddr) (size : ℕ) : Type 0 where
  pub from : IsNode a
  pub to : IsNode b
  pub virt : b.virt_blk_shift ≡ a.virt_blk_shift
  pub phys : b.phys_blk_shift ≡ a.phys_blk_shift
  pub count : ℕ
  pub pos : 1 ≤ count
  pub pieces : 2 ^ a.virt_blk_shift ≡ count * 2 ^ a.phys_blk_shift
  pub sends : send_size (2 ^ a.virt_blk_shift) ≡ some size

two_pow-small : (s : ℕ) → s < 31 → 2 ^ s < 2 ^ 63
two_pow-small s h =
    omega (arith, pow-le-pow_right {n = 2} (omega arith) {i = s} {j = 30} (omega arith))

-- An open device with a good header of the sizes carries packets.
pub carries :
    (z : Zlib) {a b : HwAddr} {size : ℕ} (g : Agree a b size) (addr : HwAddr) (path : List ℕ)
    (fd : ℕ) (d : List ℕ)
    → length addr.rest ≡ 12
    → HasHeader z a d
    → Carries (opened_device addr path fd d) a.phys_blk_shift g.count size
carries z {a} g addr path fd d rest h = record {
  pieces = record {
    phys = h.phys;
    virt = h.virt ∙ g.pieces;
    exponent = omega (arith, g.from.address.phys);
    pos = g.pos;
    small = omega (arith, g.pieces, two_pow-small a.virt_blk_shift g.from.address.virt);
  };
  sends = rw (h.virt) g.sends;
  addr = rest;
}

module _ (z : Zlib) {a b : HwAddr} {size : ℕ} (g : Agree a b size) {d : List ℕ}
    (h : HasHeader z a d) (path : List ℕ) (fd fd' : ℕ) where
  abbrev sender : Device
  sender = opened_device a path fd d

  pub from-carries : Carries sender a.phys_blk_shift g.count size
  from-carries = carries z g a path fd d g.from.rest h

  abbrev packet : List ℕ → List ℕ
  packet dat = encode_packet (packet_of z sender dat size)

  -- The device with the message in the block of the other node.
  abbrev pub with_message : List ℕ → List ℕ
  with_message dat = write_at (slot sender b.node_id) (packet dat) d

  module _ (dat : List ℕ) (room : length dat ≤ size) (bytes : AllBytes dat) where
    pub length-packet : length (packet dat) ≡ size + 32
    length-packet = length-encode_packet (packet_of-Fits z from-carries sender dat g.from.rest room)

    AllBytes-packet : AllBytes (packet dat)
    AllBytes-packet =
        AllBytes-encode_packet (packet_of z sender dat size) g.from.bytes
          (AllBytes-overlay dat (replicate size 0) bytes (AllBytes-zeros size))

    -- The blocks lie behind the header, which stays.
    behind : 512 ≤ slot sender b.node_id
    behind =
        let v : ℕ = sender.hdr.h.virt_blk_size in
        let small : v ≤ 4096 = omega (arith, virt-eq z from-carries, size-small z from-carries) in
        omega (arith, slot_offset-flat v b.node_id small g.to.bytes.0)

    head-kept : read_at 0 512 (with_message dat) ≡ read_at 0 512 d
    head-kept =
        read_at-write_at_before 0 512 (slot sender b.node_id) (packet dat) d (omega (arith, behind))
          (omega (arith, h.device.size))

    pub seen-kept : seen (with_message dat) ≡ seen d
    unfolding seen
    seen-kept = ap decode head-kept

    pub HasHeader-kept : HasHeader z b (with_message dat)
    HasHeader-kept = record {
      device = record {
        size = omega (
          arith,
          h.device.size,
          length-write_at (slot sender b.node_id) (packet dat) d (omega (arith, length-packet)),
        );
        bytes =
            AllBytes-write_at (slot sender b.node_id) (packet dat) d AllBytes-packet h.device.bytes;
      };
      good = rw seen-kept h.good;
      phys = rw seen-kept (rw g.phys h.phys);
      virt = rw seen-kept (rw g.virt h.virt);
    }

module _ (z : Zlib) (path : List ℕ) where
  -- A program that opens the file as a node and sends a string, and one that receives.
  abbrev pub send_program : HwAddr → ℕ → List ℕ → ℕ → M (Unit {0})
  send_program addr fd s dst = do
    dev ← eob_device_open_file z addr path (some fd) false
    eob_device_send_str z dev s dst

  abbrev pub recv_program : HwAddr → ℕ → M (Option (List ℕ) × HwAddr)
  recv_program addr fd = do
    dev ← eob_device_open_file z addr path (some fd) false
    eob_device_recv_str z dev

  module _ {a b : HwAddr} {size : ℕ} (g : Agree a b size) {d : List ℕ} (h : HasHeader z a d)
      (fd fd' : ℕ) (opened : 0 < fd) (opened' : 0 < fd') (s : List ℕ) (plain : NoNul s)
      (fits : length s < size) (bytes : AllBytes s) where
    abbrev text : List ℕ
    text = s ++ (0 ∷ [])

    abbrev d' : List ℕ
    d' = with_message z g h path fd fd' text

    one_more : length text ≡ suc (length s)
    one_more = omega (arith, length-append {0} s (0 ∷ []))

    text-bytes : AllBytes text
    text-bytes = AllBytes-append s (0 ∷ []) bytes (omega arith, tt)

    send-run : send_program a fd s b.node_id (calm d) ≡ (ok tt, calm d')
    unfolding eob_device_send_str
    send-run = rw (eob_device_open_file-adopts z a path fd d g.from.address h opened) (
        sent-fits z (from-carries z g h path fd fd') (carries z g b path fd' d g.to.rest h) text d
          (omega (arith, one_more)))

    -- The receiver as it would be, had it been opened before the message was sent.
    receiver : Device
    receiver = opened_device b path fd' d

    recv-run :
        slot_offset (2 ^ a.virt_blk_shift) b.node_id + 2 ^ a.virt_blk_shift ≤ length d
        → eob_device_recv_str z receiver (calm d') ≡ (ok (some s, a), calm d')
    unfolding receiver eob_device_send_str
    recv-run inside =
        let from : Carries (opened_device a path fd d) a.phys_blk_shift g.count size =
          from-carries z g h path fd fd' in
        let to : Carries receiver a.phys_blk_shift g.count size =
          carries z g b path fd' d g.to.rest h in
        let sent = sent-fits z from to text d (omega (arith, one_more)) in
        let room : slot receiver b.node_id + (size + 32) ≤ length d =
          rw h.virt (omega (arith, inside, virt-eq z to, h.virt)) in
        ap (λ r. continue r.0 (λ _. eob_device_recv_str z receiver) r.1) (sym sent)
        ∙ eob_device_recv_str-send_str z from to s d plain fits room

    pub send_str-run :
        eob_device_send_str z (opened_device a path fd d) s b.node_id (calm d) ≡ (ok tt, calm d')
    unfolding eob_device_send_str
    send_str-run =
        sent-fits z (from-carries z g h path fd fd') (carries z g b path fd' d g.to.rest h) text d
          (omega (arith, one_more))

    header-kept : HasHeader z b d'
    header-kept = HasHeader-kept z g h path fd fd' text (omega (arith, one_more)) text-bytes

    recv_str-run :
        slot_offset (2 ^ a.virt_blk_shift) b.node_id + 2 ^ a.virt_blk_shift ≤ length d
        → eob_device_recv_str z (opened_device b path fd' d') (calm d') ≡ (ok (some s, a), calm d')
    unfolding receiver
    recv_str-run inside =
        rw (seen-kept z g h path fd fd' text (omega (arith, one_more)) text-bytes) (recv-run inside)

    -- A program opens the device as one node and sends a string to another, and a program that then
    -- opens it as that node receives the string and the address of the sender; the device has the
    -- message in the block of the node and is else as it was. The device has a good header of the
    -- sizes of both addresses and has the node's block, nothing interferes, the descriptors are not
    -- 0, and the string has no NUL and fits the packet with the one behind it.
    pub session :
        slot_offset (2 ^ a.virt_blk_shift) b.node_id + 2 ^ a.virt_blk_shift ≤ length d
        → (send_program a fd s b.node_id >>= λ _. recv_program b fd') (calm d)
          ≡ (ok (some s, a), calm d')
    session inside = rw send-run (
        rw (eob_device_open_file-adopts z b path fd' d' g.to.address header-kept opened')
          (rw (recv_str-run inside)))
