-- ===== src/Message/Delivery.antt =====
-- A message on a calm device: what eob_device_send writes, and what eob_device_recv makes of it.
use eoblock.Prelude.{
  lt→ltb, [], ◌++◌, suc, ◌∷◌, length-append, ℕ, ◌+◌, ◌*◌, ◌≤◌, ◌<◌, ◌≡◌, ◌≢◌, ◌⊎◌, inl, inr, refl,
  sym, ap, ◌∙◌, subst, arith, some, false, List, length, take_all, take-append, ◌==◌, le→ltb, eq→==,
}
use eoblock.System.{ok, calm, ◌>>=◌}
use eoblock.System.Disk.{
  read_at, write_at, read_at-write_at, read_at-write_at_before, read_at-write_at_after,
  length-write_at,
}
use eoblock.Chksum.{Zlib}
use eoblock.Device.{Device}
use eoblock.Buff.{slot_offset}
use eoblock.Buff.Transfer.{slot}
use eoblock.Message.{
  strlen, eob_device_send_str, eob_device_recv_str, packet_of, eob_device_send, eob_device_recv,
}
use eoblock.Message.Layout.{encode_packet, length-encode_packet}
use eoblock.Message.Calm.{
  Carries, received, virt-eq, size-small, packet_of-Fits, received-packet, eob_device_send-calm,
  eob_device_recv-calm,
}

apart : (a b : ℕ) → a ≢ b → (a < b) ⊎ (b < a)
apart a b ne = ground arith

mul_step : (v a b : ℕ) → a < b → v * a + v ≤ v * b
mul_step v a b h = grind arith

mul_bound : (v n : ℕ) → v ≤ 4096 → n < 256 → v * n ≤ 4096 * 255
mul_bound v n h g = grind arith

pub slot_offset-flat : (v n : ℕ) → v ≤ 4096 → n < 256 → slot_offset v n ≡ 512 + v * n
slot_offset-flat v n h g = omega (arith, mul_bound v n h g)

-- The blocks of two nodes lie apart.
slot_offset-apart : (v a b : ℕ) → v ≤ 4096 → a < b → b < 256 → slot_offset v a + v ≤ slot_offset v b
slot_offset-apart v a b h lt small =
    omega
      (arith, slot_offset-flat v a h (omega arith), slot_offset-flat v b h small, mul_step v a b lt)

-- A string, which the code ends by a NUL.
unfoldable pub NoNul : List ℕ → Type 0
NoNul [] = Unit
NoNul (x ∷ xs) = ((x == 0) ≡ false) × NoNul xs

-- Two devices that agree on the sizes.
pub strlen-NoNul : (s : List ℕ) → NoNul s → strlen (s ++ (0 ∷ [])) ≡ length s
unfolding NoNul
strlen-NoNul [] n = refl
strlen-NoNul (x ∷ xs) (n, ns) = rw n (ap suc (strlen-NoNul xs ns))

module _ (z : Zlib) {from to : Device} {k count size : ℕ} (g : Carries from k count size)
    (h : Carries to k count size) where
  virt-agree : from.hdr.h.virt_blk_size ≡ to.hdr.h.virt_blk_size
  virt-agree = virt-eq z g ∙ sym (virt-eq z h)

  -- The device with the message at the place of the node.
  abbrev pub delivered : List ℕ → List ℕ → List ℕ
  delivered dat d =
      write_at (slot from to.addr.node_id) (encode_packet (packet_of z from dat size)) d

  module _ (dat d : List ℕ) (room : length dat ≤ size) where
    pub sent-fits :
        eob_device_send z from dat to.addr.node_id (calm d) ≡ (ok tt, calm (delivered dat d))
    sent-fits =
        rw (eob_device_send-calm z g dat to.addr.node_id d)
          (rw (le→ltb (size + 32) (length dat) (omega arith), le→ltb size (length dat) room) refl)

    -- The node's block holds the packet.
    pub recv-packet :
        slot to to.addr.node_id + (size + 32) ≤ length d
        → eob_device_recv z to (calm (delivered dat d))
          ≡ (received z h (encode_packet (packet_of z from dat size)), calm (delivered dat d))
    recv-packet inside =
        let bs : List ℕ = encode_packet (packet_of z from dat size) in
        let whole : length bs ≡ size + 32 =
          length-encode_packet (packet_of-Fits z g from dat g.addr room) in
        let same : slot from to.addr.node_id ≡ slot to to.addr.node_id =
          ap (λ v. slot_offset v to.addr.node_id) virt-agree in
        let d' : List ℕ = delivered dat d in
        let seen : read_at (slot to to.addr.node_id) (size + 32) d' ≡ bs =
          subst (λ o. read_at o (size + 32) d' ≡ bs) same
            (read_at-write_at (slot from to.addr.node_id) (size + 32) bs d (omega (arith, whole))
              ∙ take_all (size + 32) bs (omega (arith, whole))) in
        rw
          (eob_device_recv-calm z h d' (
            omega (
              arith,
              inside,
              length-write_at (slot from to.addr.node_id) bs d (omega (arith, whole)),
            )))
          (rw seen refl)

    pub recv-delivered :
        0 < length dat
        → slot to to.addr.node_id + (size + 32) ≤ length d
        → eob_device_recv z to (calm (delivered dat d))
          ≡ (ok (record { dat = dat; src = from.addr }), calm (delivered dat d))
    recv-delivered pos inside =
        rw (recv-packet inside) (rw (received-packet z h dat from pos room g.addr) refl)

  -- A message of at least one byte that fits the packet's array is received by the node that it was
  -- sent to, with the address of the sender, on a calm device that has room for the node's block,
  -- if both ends agree on the sizes of the blocks.
  pub eob_device_recv-send :
      (dat : List ℕ) (d : List ℕ)
      → 0 < length dat
      → length dat ≤ size
      → slot to to.addr.node_id + (size + 32) ≤ length d
      → (eob_device_send z from dat to.addr.node_id >>= λ _. eob_device_recv z to) (calm d)
        ≡ (ok (record { dat = dat; src = from.addr }), calm (delivered dat d))
  eob_device_recv-send dat d pos room inside =
      rw (sent-fits dat d room) (recv-delivered dat d room pos inside)

  -- What a node receives does not depend on a message that is sent to another one and fits, on a
  -- calm device that has the blocks of both.
  pub eob_device_recv-send_other :
      (dat d : List ℕ) (dst : ℕ)
      → dst ≢ to.addr.node_id
      → dst < 256
      → to.addr.node_id < 256
      → length dat ≤ size
      → slot to to.addr.node_id + (size + 32) ≤ length d
      → ((eob_device_send z from dat dst >>= λ _. eob_device_recv z to) (calm d)).0
        ≡ (eob_device_recv z to (calm d)).0
  eob_device_recv-send_other dat d dst ne small small' room inside =
      let bs : List ℕ = encode_packet (packet_of z from dat size) in
      let whole : length bs ≡ size + 32 =
        length-encode_packet (packet_of-Fits z g from dat g.addr room) in
      let d' : List ℕ = write_at (slot from dst) bs d in
      let v : ℕ = to.hdr.h.virt_blk_size in
      let bound : v ≤ 4096 = omega (arith, virt-eq z h, size-small z h) in
      let moved : slot from dst ≡ slot_offset v dst = ap (λ u. slot_offset u dst) virt-agree in
      let same : read_at (slot to to.addr.node_id) (size + 32) d'
          ≡ read_at (slot to to.addr.node_id) (size + 32) d =
        elim (apart dst to.addr.node_id ne) [
          | inl before ↦
              read_at-write_at_after (slot to to.addr.node_id) (size + 32) (slot from dst) bs d (
                omega (
                  arith,
                  virt-eq z h,
                  whole,
                  moved,
                  slot_offset-apart v dst to.addr.node_id bound before small',
                ))
          | inr after ↦
              read_at-write_at_before (slot to to.addr.node_id) (size + 32) (slot from dst) bs d
                (omega (
                  arith,
                  virt-eq z h,
                  moved,
                  slot_offset-apart v to.addr.node_id dst bound after small,
                ))
                inside
        ] in
      rw (eob_device_send-calm z g dat dst d) (
        rw (le→ltb (size + 32) (length dat) (omega arith), le→ltb size (length dat) room)
          (rw
            (eob_device_recv-calm z h d'
              (omega (arith, inside, length-write_at (slot from dst) bs d (omega (arith, whole)))))
            (rw (eob_device_recv-calm z h d inside) (rw same refl))))

  -- A string that fits the packet's array with its NUL is received as it was sent, with the address
  -- of the sender, on a calm device that has room for the node's block, if both ends agree on the
  -- sizes of the blocks.
  pub eob_device_recv_str-send_str :
      (s d : List ℕ)
      → NoNul s
      → length s < size
      → slot to to.addr.node_id + (size + 32) ≤ length d
      → (eob_device_send_str z from s to.addr.node_id >>= λ _. eob_device_recv_str z to) (calm d)
        ≡ (ok (some s, from.addr), calm (delivered (s ++ (0 ∷ [])) d))
  unfolding eob_device_send_str eob_device_recv_str
  eob_device_recv_str-send_str s d plain fits inside =
      let dat : List ℕ = s ++ (0 ∷ []) in
      let n : ℕ = length s in
      let not_zero : (suc n == 0) ≡ false = ground arith in
      let one_more : length dat ≡ suc (length s) = omega (arith, length-append {0} s (0 ∷ [])) in
      rw (sent-fits dat d (omega arith)) (
        rw (recv-delivered dat d (omega arith) (omega arith) inside) (
          rw (one_more, strlen-NoNul s plain)
            (rw (not_zero, lt→ltb n (suc n) (omega arith), eq→== (n + 1) (suc n) (omega arith))
              (rw (take-append n s (0 ∷ []) refl) refl))))
