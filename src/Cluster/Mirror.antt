-- ===== src/Cluster/Mirror.antt =====
-- How the bytes of the shared device stand for the members and the mailboxes.
use eoblock.Admin.Registry.{IsRegistry}
use eoblock.Admin.Spec.{members}
use eoblock.Buff.Transfer.{slot}
use eoblock.Chksum.{Zlib}
use eoblock.Cluster.{Reply}
use eoblock.Cluster.Spec.{View}
use eoblock.Device.{Device, HwAddr}
use eoblock.HeaderIo.Laws.{seen}
use eoblock.Message.{eob_device_recv}
use eoblock.Message.Calm.{Carries}
use eoblock.Message.Layout.{addr_bytes}
use eoblock.System.{World, calm}
use eoblock.Prelude.{ℕ, ◌+◌, ◌≤◌, ◌<◌, ◌≡◌, arith, List, length, AllBytes}

-- The open devices of the nodes: each has its number, and they agree on the sizes.
pub record IsCluster (nodes : ℕ → Device) (count k pieces size : ℕ) : Type 0 where
  pub carries : (i : ℕ) → i < count → Carries (nodes i) k pieces size
  pub number : (i : ℕ) → i < count → (nodes i).addr.node_id ≡ i
  pub bytes : (i : ℕ) → i < count → AllBytes (addr_bytes (nodes i).addr)
  pub few : count ≤ 256

module _ (z : Zlib) {nodes : ℕ → Device} {count k pieces size : ℕ}
    (c : IsCluster nodes count k pieces size) where
  abbrev pub addr_of : ℕ → HwAddr
  addr_of i = (nodes i).addr

  -- The device has the blocks of all nodes.
  abbrev pub HasRoom : List ℕ → Type 0
  HasRoom d = (i : ℕ) → i < count → slot (nodes i) i + (size + 32) ≤ length d

  -- The device stands for the members and the mailboxes.
  pub record Mirrors (capacity virt : ℕ) (d : List ℕ) (s : View) : Type 0 where
    pub registry : IsRegistry z d
    pub sector : (seen d).h.phys_blk_size ≡ 512
    pub places : (seen d).h.nodes_count ≡ capacity
    pub block : (seen d).h.virt_blk_size ≡ virt
    pub room : HasRoom d
    pub holds : members (seen d) ≡ s.members
    pub mail : (i : ℕ) → i < count → (eob_device_recv z (nodes i) (calm d)).0 ≡ s.boxes i

  -- The action does what the specification says, and leaves a calm device that stands for the rest.
  pub record Simulates (capacity virt : ℕ) (r : Reply × World) (a : Reply × View) : Type 0 where
    pub reply : r.0 ≡ a.0
    pub calm_again : r.1 ≡ calm r.1.disk
    pub after : Mirrors capacity virt r.1.disk a.1

  pub slot_room :
      (d : List ℕ) (i : ℕ)
      → i < count
      → HasRoom d
      → slot (nodes i) (nodes i).addr.node_id + (size + 32) ≤ length d
  slot_room d i inside room = rw (c.number i inside) (room i inside)

  pub small : (i : ℕ) → i < count → (nodes i).addr.node_id < 256
  small i inside = rw (c.number i inside) (omega (arith, c.few))
