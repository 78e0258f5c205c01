-- ===== src/Message/Meanwhile.antt =====
-- A node that receives while others send: the order in which the calls on the device happen decides.
use eoblock.System.{Write, ok, calm, apply_writes, continue}
use eoblock.System.Disk.{write_at}
use eoblock.Chksum.{Zlib}
use eoblock.Device.{Device}
use eoblock.Buff.Transfer.{slot}
use eoblock.Buff.Meanwhile.{waiting, recv_raw-waiting}
use eoblock.Message.{packet_of, eob_device_send, eob_device_recv}
use eoblock.Message.Sound.{taken}
use eoblock.Message.Layout.{encode_packet}
use eoblock.Message.Calm.{Carries}
use eoblock.Message.Delivery.{sent-fits, recv-delivered}
use eoblock.Prelude.{ℕ, ◌+◌, ◌≤◌, ◌<◌, ◌≡◌, refl, ap, ◌∙◌, List, [], ◌∷◌, ◌++◌, length}

apply_writes-snoc :
    (ws : List Write) (w : Write) (d : List ℕ)
    → apply_writes (ws ++ (w ∷ [])) d ≡ write_at w.offset w.bytes (apply_writes ws d)
apply_writes-snoc [] w d = refl
apply_writes-snoc (v ∷ ws) w d = apply_writes-snoc ws w (write_at v.offset v.bytes d)

module _ (z : Zlib) {from to : Device} {k count size : ℕ} (g : Carries from k count size)
    (h : Carries to k count size) where
  -- A receive takes place at its system call: it ends as if others had written before it started.
  recv-waiting :
      (d : List ℕ) (ws : List Write)
      → eob_device_recv z to (waiting d ws) ≡ eob_device_recv z to (calm (apply_writes ws d))
  unfolding eob_device_recv
  recv-waiting d ws = ap (λ r. continue r.0 (taken z to size) r.1) (recv_raw-waiting d ws h.pieces)

  -- The one write that a send is.
  abbrev pub message : List ℕ → Write
  message dat = record {
    offset = slot from to.addr.node_id;
    bytes = encode_packet (packet_of z from dat size);
  }

  -- A send to a node is one write, and a node that has started to receive gets the message of the
  -- last write before its system call, whatever other nodes have written before that. The message
  -- has at least one byte and fits, the device has the node's block, both ends agree on the sizes of
  -- the blocks, and no call fails.
  pub eob_device_recv-meanwhile :
      (dat d : List ℕ) (before : List Write)
      → 0 < length dat
      → length dat ≤ size
      → slot to to.addr.node_id + (size + 32) ≤ length (apply_writes before d)
      → (eob_device_send z from dat to.addr.node_id (calm d)
          ≡ (ok tt, calm (apply_writes (message dat ∷ []) d)))
        × (eob_device_recv z to (waiting d (before ++ (message dat ∷ []))) ≡ (
          ok (record { dat = dat; src = from.addr }),
          calm (apply_writes (before ++ (message dat ∷ [])) d),
        ))
  eob_device_recv-meanwhile dat d before pos room inside = (
    sent-fits z g h dat d room,
    recv-waiting d (before ++ (message dat ∷ []))
        ∙ rw (apply_writes-snoc before (message dat) d)
            (recv-delivered z g h dat (apply_writes before d) room pos inside),
  )
