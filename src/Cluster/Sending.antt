-- ===== src/Cluster/Sending.antt =====
-- A message on the shared device: it lands in the mailbox of one node, and leaves the header and the
-- mail of the others.
use eoblock.Admin.Registry.{IsRegistry}
use eoblock.Admin.Spec.{members}
use eoblock.Buff.Transfer.{slot}
use eoblock.Chksum.{Zlib}
use eoblock.Cluster.{sends, perform}
use eoblock.Cluster.Spec.{View, letter, step}
use eoblock.Device.{Device}
use eoblock.HeaderIo.Laws.{seen}
use eoblock.HeaderIo.Write.{AllBytes-write_at, AllBytes-overlay}
use eoblock.Message.{packet_of, eob_device_send, eob_device_recv}
use eoblock.Message.Apart.{seen-sent}
use eoblock.Message.Calm.{Carries, received-packet, received-empty, packet_of-Fits}
use eoblock.Message.Delivery.{delivered, sent-fits, recv-packet, eob_device_recv-send_other}
use eoblock.Message.Layout.{encode_packet, length-encode_packet, AllBytes-encode_packet}
use eoblock.System.{ok, calm, continue}
use eoblock.System.Disk.{length-write_at}
use eoblock.Prelude.{
  ℕ, ◌+◌, ◌≤◌, ◌<◌, ◌≡◌, refl, sym, ap, ◌∙◌, subst, arith, false, List, [], ◌∷◌, length, replicate,
  AllBytes, AllBytes-zeros, ◌==◌, ==_iff, Bool-cases, inl, inr,
}
use eoblock.Cluster.Mirror.{IsCluster, Mirrors, Simulates, addr_of, slot_room, small}

module _ (z : Zlib) {nodes : ℕ → Device} {count k pieces size : ℕ}
    (c : IsCluster nodes count k pieces size) (fd : ℕ) {capacity virt : ℕ} {d : List ℕ} {s : View}
    (m : Mirrors z c capacity virt d s) where
  module _ (a b : ℕ) (from : a < count) (to : b < count) (dat : List ℕ) (fits : length dat ≤ size)
      (plain : AllBytes dat) where
    abbrev g : Carries (nodes a) k pieces size
    g = c.carries a from

    abbrev h : Carries (nodes b) k pieces size
    h = c.carries b to

    abbrev d' : List ℕ
    d' = delivered z g h dat d

    pub sent-as : eob_device_send z (nodes a) dat b (calm d) ≡ (ok tt, calm d')
    sent-as =
        subst (λ n. eob_device_send z (nodes a) dat n (calm d) ≡ (ok tt, calm d')) (c.number b to)
          (sent-fits z g h dat d fits)

    seen-after : seen d' ≡ seen d
    seen-after =
        subst (λ r. seen r.1.disk ≡ seen d) (sent-fits z g h dat d fits)
          (seen-sent z g h d dat (small z c b to) m.registry.device.size fits)

    length-packet : length (encode_packet (packet_of z (nodes a) dat size)) ≡ size + 32
    length-packet = length-encode_packet (packet_of-Fits z g (nodes a) dat g.addr fits)

    longer : length d ≤ length d'
    longer = omega (
      arith,
      length-write_at (slot (nodes a) (nodes b).addr.node_id)
          (encode_packet (packet_of z (nodes a) dat size)) d (omega (arith, length-packet)),
    )

    IsRegistry-sent : IsRegistry z d'
    IsRegistry-sent = record {
      device = record {
        size = omega (arith, longer, m.registry.device.size);
        bytes =
            AllBytes-write_at (slot (nodes a) (nodes b).addr.node_id) _ d
              (AllBytes-encode_packet (packet_of z (nodes a) dat size) (c.bytes a from)
                (AllBytes-overlay dat (replicate size 0) plain (AllBytes-zeros size)))
              m.registry.device.bytes;
      };
      good = rw seen-after m.registry.good;
      room = rw seen-after m.registry.room;
      capacity = rw seen-after m.registry.capacity;
    }

    delivered-letter :
        (dat : List ℕ)
        → length dat ≤ size
        → (eob_device_recv z (nodes b) (calm (delivered z g h dat d))).0
          ≡ letter (addr_of z c a) dat
    delivered-letter [] fits =
        ap (λ r. r.0) (recv-packet z g h [] d fits (slot_room z c d b to m.room))
        ∙ received-empty z h (nodes a) g.addr
    delivered-letter (x ∷ xs) fits =
        ap (λ r. r.0) (recv-packet z g h (x ∷ xs) d fits (slot_room z c d b to m.room))
        ∙ received-packet z h (x ∷ xs) (nodes a) (omega arith) fits g.addr

    -- The other nodes' mail stays.
    others :
        (i : ℕ)
        → i < count
        → (i == b) ≡ false
        → (eob_device_recv z (nodes i) (calm d')).0 ≡ s.boxes i
    others i inside other =
        subst
          (λ r.
            (continue r.0 (λ _. eob_device_recv z (nodes i)) r.1).0
            ≡ (eob_device_recv z (nodes i) (calm d)).0)
          (sent-fits z g h dat d fits)
          (eob_device_recv-send_other z g (c.carries i inside) dat d (nodes b).addr.node_id
            (λ e. cc (other, (==_iff i b).1 (sym (sym (c.number b to) ∙ e ∙ c.number i inside))))
            (small z c b to) (small z c i inside) fits (slot_room z c d i inside m.room))
        ∙ m.mail i inside

    pub Simulates-send :
        Simulates z c capacity virt
          (perform z fd nodes (sends a dat b) (calm d))
          (step capacity (addr_of z c) (sends a dat b) s)
    Simulates-send = rw sent-as (record {
      reply = refl;
      calm_again = refl;
      after = record {
        registry = IsRegistry-sent;
        sector = ap (λ x. x.h.phys_blk_size) seen-after ∙ m.sector;
        places = ap (λ x. x.h.nodes_count) seen-after ∙ m.places;
        block = ap (λ x. x.h.virt_blk_size) seen-after ∙ m.block;
        room = λ i inside. omega (arith, m.room i inside, longer);
        holds = ap members seen-after ∙ m.holds;
        mail = λ i inside. elim (Bool-cases (i == b)) [
          | inl same ↦
              let e : i ≡ b = (==_iff i b).0 same in rw same (rw e (delivered-letter dat fits))
          | inr other ↦ rw other (others i inside other)
        ];
      };
    })
