-- ===== src/Message/Frame.antt =====
-- eob_device_send when allocations and system calls fail or fall short: it writes to the block of the
-- node that it sends to, and nowhere else.
use eoblock.System.{World, M, ◌>>=◌, pure}
use eoblock.System.Disk.{read_at}
use eoblock.System.Offline.{
  Offline, Offline-pure, Offline-bind, Offline-die, Offline-in_bounds, Offline-malloc,
  Offline-set_err, Any,
}
use eoblock.Errors.{eob_2big}
use eoblock.Iovec.{memdup}
use eoblock.Chksum.{Zlib}
use eoblock.Device.{Device}
use eoblock.Buff.{eob_device_send_raw}
use eoblock.Buff.Offline.{IfSome}
use eoblock.Buff.Frame.{
  Alone, Keeps, Ends-Keeps, OutsideSlot, send_raw-Keeps, bind-Keeps, Keeps-Same,
}
use eoblock.Message.{send_size, implemented, packet_of, vpkt_of, eob_device_send}
use eoblock.Message.Layout.{encode_packet, length-encode_packet}
use eoblock.Message.Calm.{Carries, packet_of-Fits, virt-eq}
use eoblock.Prelude.{
  ℕ, ◌≡◌, refl, sym, ◌∙◌, subst, arith, true, Option, none, some, List, length, ltb, leb, if-elim,
}

pub Offline-implemented : (o : Option ℕ) → Offline (λ n. o ≡ some n) (implemented o)
Offline-implemented none = Offline-die
Offline-implemented (some n) = Offline-pure refl

Offline-memdup : (bs : List ℕ) → Offline (IfSome (λ c. c ≡ bs)) (memdup bs)
unfolding memdup
Offline-memdup bs = Offline-bind (Offline-malloc (length bs)) (λ r _. copied r)
  where
    copied :
        (r : Option (List ℕ))
        → Offline (IfSome (λ c. c ≡ bs)) (elim r [ none ↦ pure none | some p ↦ pure (some bs) ])
    copied none = Offline-pure tt
    copied (some p) = Offline-pure refl

-- The copy has the length of what was copied.
copied-length :
    (bs : List ℕ) (o : Option (List ℕ)) (n : ℕ)
    → IfSome (λ c. c ≡ bs) o
    → length bs ≡ n
    → (dat : List ℕ) → o ≡ some dat
    → length dat ≡ n
copied-length bs none n q e dat h = absurd (ground arith)
copied-length bs (some c) n q e dat h = cc

module _ (z : Zlib) {dev : Device} {k count size : ℕ} (g : Carries dev k count size)
    (o n dst : ℕ) where
  send_packet-Keeps :
      (dat : List ℕ) (w : World)
      → leb (length dat) size ≡ true
      → Alone w.events
      → OutsideSlot o n g.pieces dst w.disk
      → Keeps o n w.disk (
          (memdup (encode_packet (packet_of z dev dat size)) >>= λ base.
          eob_device_send_raw dev dst (vpkt_of z (encode_packet (packet_of z dev dat size)) base))
            w)
  send_packet-Keeps dat w room alone out =
      let bs : List ℕ = encode_packet (packet_of z dev dat size) in
      let whole : length bs ≡ dev.hdr.h.virt_blk_size =
        length-encode_packet (packet_of-Fits z g dev dat g.addr (ground arith))
        ∙ sym (virt-eq z g) in
      bind-Keeps o n (Offline-memdup bs) w (λ base v s made. Keeps-Same o n s (
        send_raw-Keeps o n g.pieces dst (vpkt_of z bs base) v
          (copied-length bs base dev.hdr.h.virt_blk_size made whole)
          (subst Alone (sym s.events) alone)
          (subst (OutsideSlot o n g.pieces dst) (sym s.disk) out)))

  send-Keeps :
      (dat : List ℕ) (w : World)
      → Alone w.events
      → OutsideSlot o n g.pieces dst w.disk
      → Keeps o n w.disk (eob_device_send z dev dat dst w)
  unfolding eob_device_send
  send-Keeps dat w alone out =
      if-elim (λ (m : M (Unit {0})). Keeps o n w.disk (m w))
        (ltb dev.hdr.h.virt_blk_size (length dat))
        (λ _. Ends-Keeps o n ((Offline-set_err {Q = Any} eob_2big).at w))
        (λ _. bind-Keeps o n (Offline-implemented (send_size dev.hdr.h.virt_blk_size)) w (λ m v s e.
          let known : m ≡ size = cc (e, g.sends) in
          Keeps-Same o n s (
            rw known (
              bind-Keeps o n (Offline-in_bounds (leb (length dat) size)) v (λ _ u t room.
                Keeps-Same o n t (
                  send_packet-Keeps dat u room (subst Alone (sym (t.events ∙ s.events)) alone)
                    (subst (OutsideSlot o n g.pieces dst) (sym (t.disk ∙ s.disk)) out)))))))

  -- Whatever the allocations give, and whether the write fails or falls short, eob_device_send
  -- leaves every byte that lies outside the block of the node it sends to: bytes before the block,
  -- which the device has, and bytes behind it. No other node writes meanwhile, and the device has
  -- blocks that it can send.
  pub eob_device_send-outside :
      (dat : List ℕ) (w : World)
      → Alone w.events
      → OutsideSlot o n g.pieces dst w.disk
      → read_at o n (eob_device_send z dev dat dst w).1.disk ≡ read_at o n w.disk
  eob_device_send-outside dat w alone out = (send-Keeps dat w alone out).bytes
