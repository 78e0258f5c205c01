-- ===== src/Cmd/SelfTestRuns.antt =====
-- What the tests of `iface test` come to on a device that is set up.
use eoblock.Prelude.{
  ℕ, ◌+◌, ◌^◌, ◌≤◌, ◌<◌, ◌≡◌, refl, sym, ap, ◌∙◌, arith, some, List, [], ◌∷◌, ◌++◌, length,
  AllBytes, AllBytes-zeros,
}
use eoblock.System.{ok, fault, calm}
use eoblock.System.Disk.{length-write_at}
use eoblock.Chksum.{Zlib}
use eoblock.Device.{HwAddr, eob_hw_addr_init_default}
use eoblock.Device.Adopt.{HasHeader, opened_device, eob_device_open_file-adopts}
use eoblock.Device.Open.{find_disk_by_path}
use eoblock.Device.Close.{freed, eob_device_close}
use eoblock.Buff.Transfer.{slot}
use eoblock.Message.Layout.{encode_packet}
use eoblock.Message.{
  packet_of, eob_device_send_str, eob_device_recv_str, eob_device_send, eob_device_recv,
}
use eoblock.Message.Calm.{Carries}
use eoblock.Message.Delivery.{sent-fits, recv-delivered}
use eoblock.Message.Session.{
  IsNode, Agree, carries, from-carries, with_message, seen-kept, HasHeader-kept, length-packet,
}
use eoblock.Cmd.{Text}
use eoblock.Cmd.Iface.{Os}
use eoblock.Cmd.SelfTest.{
  str_data, my_addr, open_as, sent_and_received, test_eob_open_alloc_close, test_eob_send_recv,
  test_find_dev_by_path, main_test,
}

-- The message with its NUL.
abbrev message : Text
message = str_data ++ (0 ∷ [])

message-AllBytes : AllBytes message
message-AllBytes = omega arith

fits : length message ≤ 480
fits = omega arith

-- A node of a cluster of two, with blocks of 512 bytes.
abbrev NodeOfTwo : HwAddr → Type 0
NodeOfTwo a =
    (a.node_id < 2)
    × (a.nodes_count ≡ 2)
    × (a.virt_blk_shift ≡ 9)
    × (a.phys_blk_shift ≡ 9)
    × (length a.rest ≡ 12)
    × AllBytes a.rest

NodeOfTwo-IsNode : (a : HwAddr) → NodeOfTwo a → IsNode a
NodeOfTwo-IsNode a h = record {
  address = record {
    virt = omega arith;
    phys = omega arith;
    nodes = omega arith;
    order = omega arith;
    sector = omega arith;
  };
  bytes = (omega arith, (omega arith, (omega arith, (omega arith, h.5))));
  rest = h.4;
}

NodeOfTwo-Agree : (a b : HwAddr) → NodeOfTwo a → NodeOfTwo b → Agree a b 480
NodeOfTwo-Agree a b h k = record {
  from = NodeOfTwo-IsNode a h;
  to = NodeOfTwo-IsNode b k;
  virt = omega arith;
  phys = omega arith;
  count = 1;
  pos = omega arith;
  pieces = rw (h.2, h.3) refl;
  sends = rw (h.2) refl;
}

abbrev node_0 : HwAddr
node_0 = eob_hw_addr_init_default 0 2

node_0-node : NodeOfTwo node_0
node_0-node = (omega arith, refl, refl, refl, refl, AllBytes-zeros 12)

node_1-node : NodeOfTwo (eob_hw_addr_init_default 1 2)
node_1-node = (omega arith, refl, refl, refl, refl, AllBytes-zeros 12)

-- The header serves every node of two.
HasHeader-other :
    (z : Zlib) (a b : HwAddr) {d : List ℕ}
    → NodeOfTwo a
    → NodeOfTwo b
    → HasHeader z a d
    → HasHeader z b d
HasHeader-other z a b j k h = record {
  device = h.device;
  good = h.good;
  phys = h.phys ∙ ap (λ (s : ℕ). 2 ^ s) (j.3 ∙ sym k.3);
  virt = h.virt ∙ ap (λ (s : ℕ). 2 ^ s) (j.2 ∙ sym k.2);
}

module _ (z : Zlib) (name : Text) (fd : ℕ) (a b : HwAddr) (j : NodeOfTwo a) (k : NodeOfTwo b)
    (one : b.node_id ≡ 1) {d : List ℕ} (h : HasHeader z a d) (inside : 1536 ≤ length d) where
  abbrev agree : Agree a b 480
  agree = NodeOfTwo-Agree a b j k

  -- The device with the message in the block of node 1.
  after : List ℕ
  after = with_message z agree h name fd fd message

  abbrev to : Carries (opened_device b name fd d) a.phys_blk_shift agree.count 480
  to = carries z agree b name fd d agree.to.rest h

  sent-run :
      eob_device_send z (opened_device a name fd d) message b.node_id (calm d) ≡ (ok tt, calm after)
  unfolding after
  sent-run = sent-fits z (from-carries z agree h name fd fd) to message d fits

  slot-inside : slot (opened_device b name fd d) b.node_id + 512 ≤ length d
  slot-inside = rw (h.virt, j.2, one) inside

  header-after : HasHeader z b after
  unfolding after
  header-after = HasHeader-kept z agree h name fd fd message fits message-AllBytes

  received-run :
      eob_device_recv z (opened_device b name fd after) (calm after)
      ≡ (ok (record { dat = message; src = a }), calm after)
  unfolding after
  received-run = rw (seen-kept z agree h name fd fd message fits message-AllBytes) (
      recv-delivered z (from-carries z agree h name fd fd) to message d fits (omega arith)
        slot-inside)

  inside-after : 1536 ≤ length after
  unfolding after
  inside-after =
      let bs : List ℕ = encode_packet (packet_of z (opened_device a name fd d) message 480) in
      omega (
        arith,
        inside,
        length-write_at (slot (opened_device a name fd d) b.node_id) bs d
            (omega (arith, length-packet z agree h name fd fd message fits message-AllBytes)),
      )

module _ (z : Zlib) (os : Os) (name : Text) (fd : ℕ) (descriptor : os.open_device ≡ some fd)
    (opened : 0 < fd) where
  open_as-run :
      (a : HwAddr) (j : NodeOfTwo a) {d : List ℕ}
      → HasHeader z a d
      → open_as z os name a (calm d) ≡ (ok (opened_device a name fd d), calm d)
  open_as-run a j {d} h =
      rw descriptor (
        rw (eob_device_open_file-adopts z a name fd d (NodeOfTwo-IsNode a j).address h opened) refl)

  module _ {d : List ℕ} (inside : 1536 ≤ length d) where
    -- The device with the message from node 0 to node 1.
    crossed : HasHeader z node_0 d → List ℕ
    crossed h =
        after z name fd node_0 (eob_hw_addr_init_default 1 2) node_0-node node_1-node refl h inside

    -- Node 0 sends and is closed, and node 1 receives.
    sent_and_received-run :
        (h : HasHeader z node_0 d)
        → sent_and_received z os name (calm d)
          ≡ (ok (freed, (some str_data, node_0)), calm (crossed h))
    unfolding sent_and_received eob_device_send_str eob_device_recv_str eob_device_close crossed
    sent_and_received-run h =
        let b : HwAddr = eob_hw_addr_init_default 1 2 in
        let k : NodeOfTwo b = node_1-node in
        rw (open_as-run node_0 node_0-node h) (
          rw (sent-run z name fd node_0 b node_0-node k refl h inside) (
            rw (open_as-run b k (header-after z name fd node_0 b node_0-node k refl h inside))
              (rw (received-run z name fd node_0 b node_0-node k refl h inside) refl)))

  abbrev me : HwAddr
  me = my_addr z os name

  module _ (twelve : length os.stack ≡ 12) (bytes : AllBytes os.stack) where
    me-node : NodeOfTwo me
    me-node = (omega arith, refl, refl, refl, twelve, bytes)

    module _ {d : List ℕ} (inside : 1536 ≤ length d) where
      -- The device with the message that the node sends to itself.
      left : HasHeader z me d → List ℕ
      left h = after z name fd me me me-node me-node refl h inside

      -- A node sends to itself, opens the device again and receives the message.
      open_alloc_close-run :
          (h : HasHeader z me d)
          → test_eob_open_alloc_close z os name (calm d) ≡ (ok tt, calm (left h))
      unfolding test_eob_open_alloc_close eob_device_close left
      open_alloc_close-run h = rw (open_as-run me me-node h) (
          rw (sent-run z name fd me me me-node me-node refl h inside) (
            rw (open_as-run me me-node (header-after z name fd me me me-node me-node refl h inside))
              (rw (received-run z name fd me me me-node me-node refl h inside) refl)))

      left-inside : (h : HasHeader z me d) → 1536 ≤ length (left h)
      unfolding left
      left-inside h = inside-after z name fd me me me-node me-node refl h inside

      left-header : (h : HasHeader z me d) → HasHeader z (eob_hw_addr_init_default 0 2) (left h)
      unfolding left
      left-header h =
          HasHeader-other z me (eob_hw_addr_init_default 0 2) me-node
            (omega arith, refl, refl, refl, refl, AllBytes-zeros 12)
            (header-after z name fd me me me-node me-node refl h inside)

-- On a calm device with a good header for blocks of 512 bytes and room for two of them, which udev
-- lists, `iface test` runs its second test to the end, in which a node receives what it has sent to
-- itself. In the third node 1 receives what node 0 has sent, and `dev_src` then points to memory that
-- was freed, which the next call closes: the close is not defined, and the program comes to it.
-- `open` gives a descriptor that is not 0; the address has sixteen bytes.
pub main_test-double_close :
    (z : Zlib) (os : Os) (name disk : Text) (fd : ℕ) {d : List ℕ}
    → find_disk_by_path os.udev name ≡ some disk
    → os.open_device ≡ some fd
    → 0 < fd
    → length os.stack ≡ 12
    → AllBytes os.stack
    → HasHeader z (my_addr z os name) d
    → 1536 ≤ length d
    → (d' : List ℕ) × (d'' : List ℕ) × (test_eob_open_alloc_close z os name (calm d)
        ≡ (ok tt, calm d'))
      × (sent_and_received z os name (calm d')
          ≡ (ok (freed, (some str_data, eob_hw_addr_init_default 0 2)), calm d''))
      × (eob_device_close freed (calm d'') ≡ (fault, calm d''))
      × (main_test z os (some name) (calm d) ≡ (fault, calm d''))
unfolding main_test test_find_dev_by_path test_eob_send_recv eob_device_close
main_test-double_close z os name disk fd {d} listed descriptor opened twelve bytes h inside =
    let second = open_alloc_close-run z os name fd descriptor opened twelve bytes inside h in
    let inside' = left-inside z os name fd descriptor opened twelve bytes inside h in
    let h' = left-header z os name fd descriptor opened twelve bytes inside h in
    let third = sent_and_received-run z os name fd descriptor opened inside' h' in
    (
      left z os name fd descriptor opened twelve bytes inside h,
      crossed z os name fd descriptor opened inside' h',
      second,
      third,
      refl,
      rw listed (rw second (rw third refl)),
    )
