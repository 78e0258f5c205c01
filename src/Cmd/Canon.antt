-- ===== src/Cmd/Canon.antt =====
-- cmd/iface0/iface.c: the device that a run of `iface send` or `iface recv` opens does what any open
-- device of that node does.
use eoblock.Prelude.{ℕ, ◌+◌, ◌≤◌, ◌≡◌, refl, sym, ap, ◌∙◌, arith, List, [], length, subst}
use eoblock.System.{calm}
use eoblock.System.Disk.{read_at, write_at}
use eoblock.Chksum.{Zlib}
use eoblock.Header.{header_zero}
use eoblock.Device.{Device, eob_hw_addr_init_default}
use eoblock.Device.Adopt.{HasHeader, opened_device}
use eoblock.Buff.{slot_offset}
use eoblock.Buff.Transfer.{HasPieces, slot}
use eoblock.Message.{packet_of, eob_device_recv}
use eoblock.Message.Layout.{encode_packet}
use eoblock.Message.Calm.{Carries, received, eob_device_recv-calm}
use eoblock.Message.Delivery.{delivered}
use eoblock.Message.Session.{carries, with_message}
use eoblock.Cluster.Mirror.{IsCluster}
use eoblock.Cmd.{Text, atoi}
use eoblock.Cmd.Messages.{node_of, two_nodes, default-IsNode, default-Agree}

-- An open device of the node, in a cluster of so many nodes, with blocks of 512 bytes.
abbrev pub node_device : Text → ℕ → Device
node_device count i = record {
  addr = eob_hw_addr_init_default i (atoi count);
  path = [];
  fd = 0;
  hdr = record header_zero {
    h = record (header_zero.h) { phys_blk_size = 512; virt_blk_size = 512 };
  };
  phys_buff = [];
}

node_device-HasPieces : (count : Text) (i : ℕ) → HasPieces (node_device count i) 9 1
node_device-HasPieces count i = record {
  phys = refl;
  virt = refl;
  exponent = omega arith;
  pos = omega arith;
  small = omega arith;
}

pub node_device-Carries : (count : Text) (i : ℕ) → Carries (node_device count i) 9 1 480
node_device-Carries count i = record {
  pieces = node_device-HasPieces count i;
  sends = refl;
  addr = refl;
}

pub node_device-IsCluster :
    (count : Text) (n : ℕ) → n ≤ 256 → IsCluster (node_device count) n 9 1 480
node_device-IsCluster count n few = record {
  carries = λ i inside. node_device-Carries count i;
  number = λ i inside. omega arith;
  bytes = λ i inside. (default-IsNode i (atoi count)).bytes;
  few = few;
}

module _ (z : Zlib) (count : Text) {d : List ℕ} (device : Text) (fd : ℕ) where
  pub recv-opened :
      (node : Text) (h : HasHeader z (node_of node count) d)
      → slot_offset 512 (node_of node count).node_id + 512 ≤ length d
      → eob_device_recv z (opened_device (node_of node count) device fd d) (calm d)
        ≡ ((eob_device_recv z (node_device count (atoi node)) (calm d)).0, calm d)
  recv-opened node h inside =
      let n : ℕ = (node_of node count).node_id in
      let c = node_device-Carries count (atoi node) in
      let g =
        carries z (default-Agree (atoi node) (atoi node) (atoi count) (atoi count))
          (node_of node count) device fd d refl h in
      let same : slot (opened_device (node_of node count) device fd d) n ≡ slot_offset 512 n =
        ap (λ v. slot_offset v n) h.virt in
      eob_device_recv-calm z g d (subst (λ o. o + 512 ≤ length d) (sym same) inside)
      ∙ ap (λ o. (received z c (read_at o 512 d), calm d)) same
      ∙ ap (λ r. (r.0, calm d)) (sym (eob_device_recv-calm z c d inside))

  pub with_message-delivered :
      (src dst : Text) (h : HasHeader z (node_of src count) d) (dat : List ℕ)
      → with_message z (two_nodes src dst count) h device fd fd dat
        ≡ delivered z
            (node_device-Carries count (atoi src))
            (node_device-Carries count (atoi dst))
            dat
            d
  with_message-delivered src dst h dat =
      ap
        (λ v.
          write_at (slot_offset v (node_of dst count).node_id)
            (encode_packet (packet_of z (node_device count (atoi src)) dat 480)) d)
        h.virt
