-- ===== src/Message/Apart.antt =====
-- Administration and messages on one device: the header and the blocks of the nodes lie apart where
-- the physical blocks have 512 bytes.
use eoblock.Admin.Behind.{Behind}
use eoblock.Chksum.{Zlib}
use eoblock.Device.{Device}
use eoblock.Header.{decode}
use eoblock.HeaderIo.Laws.{seen}
use eoblock.System.{World, Outcome, calm}
use eoblock.System.Disk.{read_at-write_at_before}
use eoblock.Buff.Transfer.{slot}
use eoblock.Message.{eob_device_send, eob_device_recv}
use eoblock.Message.Calm.{Carries, received, virt-eq, size-small, eob_device_recv-calm}
use eoblock.Message.Delivery.{sent-fits, slot_offset-flat}
use eoblock.Prelude.{ℕ, ◌+◌, ◌≤◌, ◌<◌, ◌≡◌, sym, ap, ◌∙◌, arith, List, length}

module _ (z : Zlib) {k count size : ℕ} where
  pub slot-behind : {dev : Device} → Carries dev k count size → (n : ℕ) → n < 256 → 512 ≤ slot dev n
  slot-behind {dev} c n small = omega (
    arith,
    slot_offset-flat dev.hdr.h.virt_blk_size n (omega (arith, virt-eq z c, size-small z c)) small,
  )

  -- What a node receives is the same where the bytes behind the header are.
  pub recv-Behind :
      {to : Device} (h : Carries to k count size) {d : List ℕ} {r : Outcome (Unit {0}) × World}
      → to.addr.node_id < 256
      → slot to to.addr.node_id + (size + 32) ≤ length d
      → Behind d r
      → (eob_device_recv z to r.1).0 ≡ (eob_device_recv z to (calm d)).0
  recv-Behind {to} h {d} {r} small inside b =
      ap (λ w. (eob_device_recv z to w).0) b.calm_again
      ∙ ap (λ r. r.0) (eob_device_recv-calm z h r.1.disk (omega (arith, inside, b.size)))
      ∙ ap (received z h)
          (b.bytes (slot to to.addr.node_id) (size + 32) (slot-behind h to.addr.node_id small))
      ∙ sym (ap (λ r. r.0) (eob_device_recv-calm z h d inside))

  -- The header is the same after a message.
  pub seen-sent :
      {from to : Device} (g : Carries from k count size) (h : Carries to k count size)
      (d dat : List ℕ)
      → to.addr.node_id < 256
      → 512 ≤ length d
      → length dat ≤ size
      → seen (eob_device_send z from dat to.addr.node_id (calm d)).1.disk ≡ seen d
  unfolding seen
  seen-sent {from} {to} g h d dat small large room = rw (sent-fits z g h dat d room) (
      ap decode (
        read_at-write_at_before 0 512 (slot from to.addr.node_id) _ d
          (slot-behind g to.addr.node_id small) large))
