-- ===== src/Message/Calm.antt =====
-- eob_device_send and eob_device_recv on a calm device with blocks of a size that both have a case for.
use eoblock.Prelude.{
  ℕ, ◌+◌, ◌*◌, ◌^◌, ◌≤◌, ◌<◌, ◌≡◌, inl, inr, refl, sym, ap, ap₂, ◌∙◌, subst, arith, some, true,
  false, List, [], length, take, drop, replicate, length-replicate, take-append, ltb, leb, ◌==◌,
  if◌then◌else◌, le→ltb, eq→==, Bool-cases,
}
use eoblock.Errors.{eob_2big}
use eoblock.System.{World, Outcome, ok, err, abort, fault, calm}
use eoblock.System.Disk.{read_at, write_at, overlay, overlay-append, length-overlay}
use eoblock.Iovec.{memdup}
use eoblock.Chksum.{Zlib, eob_chcksum_calc}
use eoblock.Device.{Device}
use eoblock.Buff.Transfer.{HasPieces, slot, eob_device_send_raw-calm}
use eoblock.Message.{
  send_size, recv_size, packet_of, eob_device_send, eob_device_recv, Received,
  eob_max_virt_blk_size,
}
use eoblock.Message.Receiving.{received_as, received_on, eob_device_recv-branches}
use eoblock.Message.Layout.{
  encode_packet, FitsPacket, length-encode_packet, decode_packet-encode_packet,
}

-- A device whose blocks are pieces of `2 ^ k` bytes and hold packets with `size` bytes of data.
pub record Carries (dev : Device) (k count size : ℕ) : Type 0 where
  pub pieces : HasPieces dev k count
  pub sends : send_size dev.hdr.h.virt_blk_size ≡ some size
  pub addr : length dev.addr.rest ≡ 12

send_size-eq : (virt size : ℕ) → send_size virt ≡ some size → (virt ≡ size + 32) × (size ≤ 4064)
send_size-eq virt size h = ground arith

recv_size-send_size : (virt size : ℕ) → send_size virt ≡ some size → recv_size virt ≡ some size
recv_size-send_size virt size h = ground arith

module _ (z : Zlib) {dev : Device} {k count size : ℕ} (g : Carries dev k count size) where
  pub virt-eq : dev.hdr.h.virt_blk_size ≡ size + 32
  virt-eq = (send_size-eq dev.hdr.h.virt_blk_size size g.sends).0

  pub size-small : size ≤ 4064
  size-small = (send_size-eq dev.hdr.h.virt_blk_size size g.sends).1

  pub packet_of-Fits :
      (from : Device) (dat : List ℕ)
      → length from.addr.rest ≡ 12
      → length dat ≤ size
      → FitsPacket size (packet_of z from dat size)
  unfolding eob_chcksum_calc
  packet_of-Fits from dat twelve h = record {
    addr = twelve;
    len = omega (arith, size-small);
    room = omega (arith, length-overlay dat (replicate size 0), length-replicate {A = ℕ} size 0);
    chksum = omega (arith, z.crc32-lt dat);
  }

  -- What the call should do on a calm device.
  abbrev pub sent : List ℕ → ℕ → List ℕ → Outcome (Unit {0}) × World
  sent dat dst d =
      if ltb (size + 32) (length dat)
      then (err eob_2big, calm d)
      else if ltb size (length dat)
      then (fault, calm d)
      else (ok tt, calm (write_at (slot dev dst) (encode_packet (packet_of z dev dat size)) d))

  memdup-calm : (bs d : List ℕ) → memdup bs (calm d) ≡ (ok (some bs), calm d)
  unfolding memdup
  memdup-calm bs d = refl

  -- A send where both switches have a case for the size of the blocks.
  pub eob_device_send-calm :
      (dat : List ℕ) (dst : ℕ) (d : List ℕ)
      → eob_device_send z dev dat dst (calm d) ≡ sent dat dst d
  unfolding eob_device_send
  eob_device_send-calm dat dst d =
      let test : ltb dev.hdr.h.virt_blk_size (length dat) ≡ ltb (size + 32) (length dat) =
        ap (λ v. ltb v (length dat)) virt-eq in
      rw test (elim (Bool-cases (ltb (size + 32) (length dat))) [
        | inl big ↦ rw big refl
        | inr fits ↦ rw fits (
            rw g.sends (elim (Bool-cases (ltb size (length dat))) [
              | inl over ↦ let e : leb (length dat) size ≡ false = ground arith in rw (over, e) refl
              | inr room ↦
                  let e : leb (length dat) size ≡ true = ground arith in
                  let bs : List ℕ = encode_packet (packet_of z dev dat size) in
                  let whole : length bs ≡ count * 2 ^ k =
                    length-encode_packet (packet_of-Fits dev dat g.addr (ground arith))
                    ∙ sym virt-eq
                    ∙ g.pieces.virt in
                  rw (room, e)
                    (rw (memdup-calm bs d) (eob_device_send_raw-calm g.pieces d dst bs whole))
            ]))
      ])

  take-packed :
      (dat : List ℕ) → length dat ≤ size → take (length dat) (overlay dat (replicate size 0)) ≡ dat
  take-packed dat room =
      ap (take (length dat))
        (overlay-append dat (replicate size 0) (omega (arith, length-replicate {A = ℕ} size 0)))
      ∙ take-append (length dat) dat (drop (length dat) (replicate size 0)) refl

  abbrev pub received : List ℕ → Outcome Received
  received = received_as z size

  -- A receive where both switches have a case for the size of the blocks.
  pub eob_device_recv-calm :
      (d : List ℕ)
      → slot dev dev.addr.node_id + (size + 32) ≤ length d
      → eob_device_recv z dev (calm d)
        ≡ (received (read_at (slot dev dev.addr.node_id) (size + 32) d), calm d)
  eob_device_recv-calm d inside =
      let offset : ℕ = slot dev dev.addr.node_id in
      eob_device_recv-branches z g.pieces d
        (subst (λ n. offset + n ≤ length d) (sym virt-eq) inside)
      ∙ ap₂ (λ o n. (received_on z o (read_at offset n d), calm d))
          (recv_size-send_size dev.hdr.h.virt_blk_size size g.sends) virt-eq

  pub received-packet :
      (dat : List ℕ) (from : Device)
      → 0 < length dat
      → length dat ≤ size
      → length from.addr.rest ≡ 12
      → received (encode_packet (packet_of z from dat size))
        ≡ ok (record { dat = dat; src = from.addr })
  received-packet dat from pos room twelve =
      let large : leb eob_max_virt_blk_size (length dat) ≡ false =
        let small : size ≤ 4064 = size-small in ground arith in
      let empty : (length dat == 0) ≡ false = ground arith in
      rw (decode_packet-encode_packet (packet_of-Fits from dat twelve room)) (
        rw (large, empty, le→ltb size (length dat) room)
          (rw (take-packed dat room)
            (rw (eq→== (eob_chcksum_calc z dat) (eob_chcksum_calc z dat) refl) refl)))

  -- A message without data.
  pub received-empty :
      (from : Device)
      → length from.addr.rest ≡ 12
      → received (encode_packet (packet_of z from [] size)) ≡ abort
  received-empty from twelve =
      rw (decode_packet-encode_packet (packet_of-Fits from [] twelve (omega arith))) refl
