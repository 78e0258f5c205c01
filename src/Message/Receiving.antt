-- ===== src/Message/Receiving.antt =====
-- eob_device_recv on a calm device, on every branch.
use eoblock.Prelude.{
  ℕ, ◌+◌, ◌≤◌, ◌≡◌, inl, inr, refl, sym, ap, ◌∙◌, subst, arith, Option, some, none, true, false,
  List, length, take, drop, length-take, length-drop, ltb, leb, ◌==◌, if◌then◌else◌, le→leb,
  Bool-cases, Option-cases,
}
use eoblock.Errors.{eob_chksum}
use eoblock.System.{World, Outcome, ok, err, abort, fault, calm, continue, pure, set_err}
use eoblock.System.Disk.{read_at}
use eoblock.Iovec.{eob_iovec_alloc_wait}
use eoblock.Chksum.{Zlib, eob_chcksum_calc}
use eoblock.Device.{Device}
use eoblock.Buff.{eob_device_recv_raw}
use eoblock.Buff.Pieces.{eob_iovec_alloc_wait-calm}
use eoblock.Buff.Transfer.{HasPieces, slot, eob_device_recv_raw-calm}
use eoblock.Message.{recv_size, eob_device_recv, unpack, Received, eob_max_virt_blk_size}
use eoblock.Message.Layout.{Packet, decode_packet}

recv_size-eq : (virt size : ℕ) → recv_size virt ≡ some size → virt ≡ size + 32
recv_size-eq virt size h = ground arith

module _ (z : Zlib) (size : ℕ) where
  -- What the call should make of the packet in the node's block.
  abbrev pub unpacked : Packet → Outcome Packet
  unpacked p =
      if leb eob_max_virt_blk_size p.data_len
      then abort
      else if p.data_len == 0
      then abort
      else if ltb size p.data_len
      then fault
      else ok (record p { dat = take p.data_len p.dat })

  abbrev pub checked : Outcome Packet → Outcome Received
  checked (ok p) =
      if eob_chcksum_calc z p.dat == p.chksum
      then ok (record { dat = p.dat; src = p.src_addr })
      else err eob_chksum
  checked (err e) = err e
  checked abort = abort
  checked fault = fault

  abbrev pub received_as : List ℕ → Outcome Received
  received_as bs = checked (unpacked (decode_packet size bs))

  alloc_wait-zero : (w : World) → eob_iovec_alloc_wait 0 w ≡ (abort, w)
  unfolding eob_iovec_alloc_wait
  alloc_wait-zero w = refl

  unpack-calm :
      (bs d : List ℕ)
      → size + 32 ≤ length bs
      → unpack size bs (calm d) ≡ (unpacked (decode_packet size bs), calm d)
  unfolding unpack
  unpack-calm bs d whole =
      let p = decode_packet size bs in
      rw (le→leb (size + 32) (length bs) whole)
        (elim (Bool-cases (leb eob_max_virt_blk_size p.data_len)) [
          | inl large ↦
              let e : ltb p.data_len eob_max_virt_blk_size ≡ false = ground arith in
              rw (e, large) refl
          | inr small ↦
              let e : ltb p.data_len eob_max_virt_blk_size ≡ true = ground arith in
              rw (e, small)
                (elim (Bool-cases (p.data_len == 0)) [
                  | inl empty ↦
                      let none_left : p.data_len ≡ 0 = ground arith in
                      rw (empty, none_left) (rw (alloc_wait-zero (calm d)) refl)
                  | inr more ↦ rw more (
                      rw (eob_iovec_alloc_wait-calm p.data_len d (ground arith))
                        (elim (Bool-cases (ltb size p.data_len)) [
                          | inl over ↦
                              let e : leb p.data_len size ≡ false = ground arith in
                              rw (e, over) refl
                          | inr room ↦
                              let e : leb p.data_len size ≡ true = ground arith in rw (e, room) refl
                        ]))
                ])
        ])

  checked-calm :
      (o : Outcome Packet) (d : List ℕ)
      → continue o
          (λ pkt.
            if eob_chcksum_calc z pkt.dat == pkt.chksum
            then pure (record { dat = pkt.dat; src = pkt.src_addr })
            else set_err eob_chksum)
          (calm d)
        ≡ (checked o, calm d)
  checked-calm (ok p) d = elim (Bool-cases (eob_chcksum_calc z p.dat == p.chksum)) [
    | inl same ↦ rw same refl
    | inr differs ↦ rw differs refl
  ]
  checked-calm (err e) d = refl
  checked-calm abort d = refl
  checked-calm fault d = refl

-- What a receive should make of the bytes of the node's block, where the switch gives that size of the
-- packet's array; `none` is NOT_IMPLEMENTED.
abbrev pub received_on : Zlib → Option ℕ → List ℕ → Outcome Received
received_on z none bs = abort
received_on z (some size) bs = received_as z size bs

-- On a calm device that has the node's block, a receive depends on the bytes of that block alone and
-- changes nothing, on every branch. It stops the program where the blocks have a size that the switch
-- has no case for, and where the packet gives no length or one of 1 MB or more; it reads beyond the
-- packet's array where the length is larger than it, and otherwise compares the checksum of the data
-- with the packet's. The blocks are pieces of `2 ^ k` bytes.
pub eob_device_recv-branches :
    (z : Zlib) {dev : Device} {k count : ℕ} (g : HasPieces dev k count) (d : List ℕ)
    → slot dev dev.addr.node_id + dev.hdr.h.virt_blk_size ≤ length d
    → eob_device_recv z dev (calm d) ≡ (
      received_on z
          (recv_size dev.hdr.h.virt_blk_size)
          (read_at (slot dev dev.addr.node_id) dev.hdr.h.virt_blk_size d),
      calm d,
    )
unfolding eob_device_recv
eob_device_recv-branches z {dev} {k} {count} g d inside =
    let virt : ℕ = dev.hdr.h.virt_blk_size in
    let offset : ℕ = slot dev dev.addr.node_id in
    let bs : List ℕ = read_at offset virt d in
    let all : length bs ≡ virt =
      unfold read_at in
      omega (arith, inside, length-take {0} virt (drop offset d), length-drop {0} offset d) in
    let raw : eob_device_recv_raw dev (calm d) ≡ (ok bs, calm d) =
      eob_device_recv_raw-calm g d (subst (λ n. offset + n ≤ length d) g.virt inside)
      ∙ ap (λ n. (ok (read_at offset n d), calm d)) (sym g.virt) in
    rw raw (elim (Option-cases (recv_size virt)) [
      | inl missing ↦ rw missing refl
      | inr (size, e) ↦ rw e (
          rw (unpack-calm z size bs d (omega (arith, all, recv_size-eq virt size e)))
            (checked-calm z size (unpacked z size (decode_packet size bs)) d))
    ])
