-- ===== src/Buff/Transfer.antt =====
-- A node's block on a calm device: it is written whole, and read whole.
use native.Mathlib.Nat.{mul-div_cancel}
use eoblock.Macros.{p2_roundup}
use eoblock.Macros.Laws.{two_pow_pos}
use eoblock.System.{World, ok, calm, pread}
use eoblock.System.Disk.{read_at, write_at}
use eoblock.Iovec.{iovec_of}
use eoblock.Device.{Device}
use eoblock.Buff.{
  Buff, new_buff, flat, scatter, pieces, alloc_table, slot_offset, eob_buff_alloc_phys,
  eob_buff_map_data_to_phys, eob_buff_map_phys_to_data, eob_buff_create, eob_buff_write,
  eob_buff_write_impl, eob_buff_read, eob_buff_read_impl, eob_device_send_raw, eob_device_recv_raw,
}
use eoblock.Buff.Pieces.{
  eob_iovec_alloc_wait-calm, alloc_pieces-calm, length-flat-replicate, flat-scatter, gather-flat,
  p2_roundup-multiple, fill_pieces-calm,
}
use eoblock.Prelude.{
  ℕ, ◌+◌, ◌*◌, ◌^◌, ◌≤◌, ◌<◌, ◌≡◌, refl, sym, ap, ◌∙◌, subst, arith, List, [], length, drop,
  replicate, length-take, length-drop, lt→ltb, eq→==,
}

-- A device whose blocks are `count` pieces of `2 ^ k` bytes.
pub record HasPieces (dev : Device) (k count : ℕ) : Type 0 where
  pub phys : dev.hdr.h.phys_blk_size ≡ 2 ^ k
  pub virt : dev.hdr.h.virt_blk_size ≡ count * 2 ^ k
  pub exponent : k < 63
  pub pos : 1 ≤ count
  pub small : count * 2 ^ k < 2 ^ 63

-- Where the block of a node lies.
abbrev pub slot : Device → ℕ → ℕ
slot dev node = slot_offset dev.hdr.h.virt_blk_size node

map_phys_to_data-calm :
    (b : Buff) (n : ℕ) (d : List ℕ)
    → 0 < n
    → b.dat ≡ []
    → length (flat b.phys_blocks) ≡ n
    → eob_buff_map_phys_to_data b n (calm d) ≡ (ok (record b { dat = flat b.phys_blocks }), calm d)
unfolding eob_buff_map_phys_to_data
map_phys_to_data-calm b n d pos empty whole = rw empty (
    rw (eob_iovec_alloc_wait-calm n d pos) (
      rw (gather-flat b.phys_blocks [] n (calm d) (omega arith))
        (rw (eq→== (length (flat b.phys_blocks)) n whole))))

module _ (k count : ℕ) (exponent : k < 63) (pos : 1 ≤ count) (small : count * 2 ^ k < 2 ^ 63) where
  pub two_pow-small : 2 ^ k ≤ count * 2 ^ k
  two_pow-small = grind (arith, two_pow_pos k)

  pub pieces-whole : (w : World) → pieces (count * 2 ^ k) (2 ^ k) w ≡ (ok count, w)
  unfolding pieces
  pieces-whole w =
      let e : p2_roundup (count * 2 ^ k) (2 ^ k) ≡ count * 2 ^ k =
        p2_roundup-multiple k count (omega arith) pos (omega (arith, two_pow-small)) in
      rw (lt→ltb 0 (2 ^ k) (two_pow_pos k)) (rw (e, mul-div_cancel count (two_pow_pos k)))

  -- The data cut and written at its place.
  write-calm :
      (b : Buff) (node : ℕ) (d : List ℕ)
      → b.phys_blk_size ≡ 2 ^ k
      → length b.dat ≡ count * 2 ^ k
      → eob_buff_write b node (calm d)
        ≡ (ok tt, calm (write_at (slot_offset b.virt_blk_size node) b.dat d))
  unfolding eob_buff_write eob_buff_map_data_to_phys eob_buff_write_impl alloc_table
  write-calm b node d size whole =
      let (blocks, e, f) =
        fill_pieces-calm b.dat (2 ^ k) count (two_pow_pos k) whole small count 0 d (omega arith) in
      let start : 0 * 2 ^ k ≡ 0 = omega arith in
      let g : flat blocks ≡ b.dat = f ∙ ap (λ n. drop n b.dat) start in
      rw (size, whole) (rw (pieces-whole (calm d)) (rw e (rw g)))

  abbrev empty_buff : Buff
  empty_buff = record {
    virt_blk_size = count * 2 ^ k;
    phys_blk_size = 2 ^ k;
    dat = [];
    phys_blocks = [];
  }

  -- A node's block read and put together.
  read-calm :
      (dev : Device) (d : List ℕ)
      → slot_offset (count * 2 ^ k) dev.addr.node_id + count * 2 ^ k ≤ length d
      → (b : Buff) × (eob_buff_read dev empty_buff (calm d) ≡ (ok b, calm d))
        × (b.dat ≡ read_at (slot_offset (count * 2 ^ k) dev.addr.node_id) (count * 2 ^ k) d)
  unfolding eob_buff_read eob_buff_alloc_phys eob_buff_read_impl alloc_table pread
  read-calm dev d inside =
      let offset : ℕ = slot_offset (count * 2 ^ k) dev.addr.node_id in
      let blocks : List (List ℕ) = replicate count (replicate (2 ^ k) 0) in
      let total : length (flat blocks) ≡ count * 2 ^ k = length-flat-replicate count (2 ^ k) in
      let bs : List ℕ = read_at offset (count * 2 ^ k) d in
      let read : length bs ≡ count * 2 ^ k =
        unfold read_at in
        omega (arith, length-take {0} (count * 2 ^ k) (drop offset d), length-drop {0} offset d) in
      let filled : flat (scatter blocks bs) ≡ bs = flat-scatter blocks bs (read ∙ sym total) in
      let b : Buff = record empty_buff { phys_blocks = scatter blocks bs } in
      (
        record b { dat = flat b.phys_blocks },
        rw (pieces-whole (calm d)) (
            rw (alloc_pieces-calm count (2 ^ k) d (two_pow_pos k)) (
              rw total (
                map_phys_to_data-calm b (length bs) d (omega (arith, two_pow-small, two_pow_pos k))
                  refl (ap length filled)))),
        filled,
      )

module _ {dev : Device} {k count : ℕ} (g : HasPieces dev k count) (d : List ℕ) where
  -- On a calm device, whose blocks are pieces of `2 ^ k` bytes, a send of a whole block of bytes
  -- writes them at the place of the node it is for, in one piece.
  pub eob_device_send_raw-calm :
      (dst : ℕ) (bs : List ℕ)
      → length bs ≡ count * 2 ^ k
      → eob_device_send_raw dev dst (iovec_of bs) (calm d)
        ≡ (ok tt, calm (write_at (slot dev dst) bs d))
  unfolding eob_device_send_raw eob_buff_create
  eob_device_send_raw-calm dst bs whole =
      write-calm k count g.exponent g.pos g.small _ dst d g.phys whole

  -- On a calm device, whose blocks are pieces of `2 ^ k` bytes and which has the block of its own
  -- node, a receive gives the bytes of that block and changes nothing.
  pub eob_device_recv_raw-calm :
      slot dev dev.addr.node_id + count * 2 ^ k ≤ length d
      → eob_device_recv_raw dev (calm d)
        ≡ (ok (read_at (slot dev dev.addr.node_id) (count * 2 ^ k) d), calm d)
  unfolding eob_device_recv_raw eob_buff_create
  eob_device_recv_raw-calm inside =
      let same : new_buff dev [] ≡ empty_buff k count g.exponent g.pos g.small = λ i. record {
        virt_blk_size = g.virt i;
        phys_blk_size = g.phys i;
        dat = [];
        phys_blocks = [];
      } in
      let (b, e, f) =
        read-calm k count g.exponent g.pos g.small dev d
          (subst (λ v. slot_offset v dev.addr.node_id + count * 2 ^ k ≤ length d) g.virt inside) in
      rw same (
        rw e (
          ap (λ xs. (ok xs, calm d))
            (f
              ∙ ap (λ v. read_at (slot_offset v dev.addr.node_id) (count * 2 ^ k) d) (sym g.virt))))
