-- ===== src/Cluster/Overlap.antt =====
-- Nodes that send while an administrator adds a node: their messages stay, since they do not lie in the
-- header that is written back.
use eoblock.Admin.Race.{between, Leaves, Behind-overlap, eob_hdr_add_device-lost_update}
use eoblock.Admin.Registry.{IsRegistry}
use eoblock.Admin.Spec
use eoblock.Admin.Spec.{members, if_present}
use eoblock.Admin.{eob_hdr_add_device}
use eoblock.Buff.Transfer.{slot}
use eoblock.Chksum.{Zlib}
use eoblock.Device.{Device}
use eoblock.Header.{NodeData, FitsNode}
use eoblock.HeaderIo.Laws.{seen}
use eoblock.Message.{eob_device_recv}
use eoblock.Message.Apart.{slot-behind, recv-Behind}
use eoblock.Message.Calm.{Carries}
use eoblock.System.{Write, apply_writes, calm}
use eoblock.Prelude.{ℕ, ◌+◌, ◌≤◌, ◌<◌, ◌≡◌, arith, false, List, length, none, some}

module _ (z : Zlib) {d : List ℕ} (reg : IsRegistry z d) (sector : (seen d).h.phys_blk_size ≡ 512)
    (fd i : ℕ) (opened : 0 < fd) (ws : List Write) {to : Device} {k pieces size : ℕ}
    (h : Carries to k pieces size) (small : to.addr.node_id < 256) where
  -- Whatever other nodes write between the read and the write of the header, eob_hdr_add_device
  -- succeeds at a free place of a good header. What they have written to the header is lost: the
  -- members are those that were read, together with the new one. What they have sent is not: a node
  -- receives afterwards what it would have received had nobody been added. The physical blocks have
  -- 512 bytes, the header is for at most 32 nodes, the node's data fit their fields, the receiver is
  -- a node below 256 whose block is on the device, and the descriptor is not 0.
  pub eob_hdr_add_device-overlap :
      (n : NodeData)
      → FitsNode n
      → i < (seen d).h.nodes_count
      → members (seen d) i ≡ none
      → slot to to.addr.node_id + (size + 32) ≤ length (apply_writes ws d)
      → Leaves
          (eob_hdr_add_device z fd i n false (between d ws))
          (Spec.update (members (seen d)) i (if_present (some n)))
        × ((eob_device_recv z to (eob_hdr_add_device z fd i n false (between d ws)).1).0
            ≡ (eob_device_recv z to (calm (apply_writes ws d))).0)
  eob_hdr_add_device-overlap n fits inside free room = (
    eob_hdr_add_device-lost_update z reg fd i opened ws n fits inside free,
    recv-Behind z h small room (
        Behind-overlap z reg fd i opened ws n fits inside free sector
          (omega (arith, room, slot-behind z h to.addr.node_id small))),
  )
