-- ===== src/Buff.antt =====
-- lib/liboblock.c: `eob_buff_*`, the transfer of a node's block between memory and the device in
-- pieces of the device's block size.
pub mod Pieces
pub mod Transfer
pub mod Offline
pub mod Frame
pub mod Meanwhile
use eoblock.Prelude.{
  ℕ, zero, suc, ◌+◌, ◌*◌, ◌/◌, Bool, ◌&&◌, not, Option, none, some, List, [], ◌∷◌, ◌++◌, length,
  take, drop, ltb, leb, ◌==◌, if◌then◌else◌,
}
use eoblock.Errors.{eob_nomem}
use eoblock.Macros.{u64, sub64, p2_roundup}
use eoblock.System.{
  M, World, Outcome, ok, err, abort, fault, calloc, pread, pwrite, pure, set_err, set_io_err,
  verify, in_bounds, ◌>>=◌, ◌>>◌, traced,
}
use eoblock.System.Disk.{overlay}
use eoblock.Iovec.{Iovec, eob_iovec_alloc, eob_iovec_copy, eob_iovec_alloc_wait, iovec_of}
use eoblock.Header.{eob_hdr_size}
use eoblock.HeaderIo.{eob_header_offset, io_result}
use eoblock.Device.{Device}

-- `phys_blocks` holds `iov_len / sizeof(struct iovec)` buffers.
pub record Buff : Type 0 where
  pub virt_blk_size : ℕ
  pub phys_blk_size : ℕ
  pub dat : List ℕ
  pub phys_blocks : List (List ℕ)

-- The system's ENOMEM, which is no code of the library.
abbrev pub enomem : ℕ
enomem = 12

-- `if (m) return …;` where the code is dropped for another.
abbrev pub attempt {ℓ} : {A : Type ℓ} → Outcome A × World → Outcome (Option A) × World
attempt (ok a, w) = (ok (some a), w)
attempt (err e, w) = (ok none, w)
attempt (abort, w) = (abort, w)
attempt (fault, w) = (fault, w)

abbrev pub caught {ℓ} : {A : Type ℓ} → M A → M (Option A)
caught m w = attempt (m w)

-- Room for `count` iovecs of sixteen bytes; its failure is reported by `SET_ERR(ENOMEM)`.
abbrev pub table_of : Option (List ℕ) → M (Unit {0})
table_of none = set_err enomem
table_of (some p) = pure tt

unfoldable pub alloc_table : ℕ → M (Unit {0})
unfolding eob_iovec_alloc
alloc_table count = do p ← caught (eob_iovec_alloc (u64 (count * 16))); table_of p

-- The number of pieces that `len` bytes take. A division by zero is undefined.
unfoldable pub pieces : ℕ → ℕ → M ℕ
pieces len size = do in_bounds (ltb 0 size); pure (p2_roundup len size / size)

abbrev pub flat : List (List ℕ) → List ℕ
flat [] = []
flat (b ∷ bs) = b ++ flat bs

-- `readv` fills the buffers in order.
abbrev pub scatter : List (List ℕ) → List ℕ → List (List ℕ)
scatter [] bs = []
scatter (b ∷ rest) bs = overlay (take (length b) bs) b ∷ scatter rest (drop (length b) bs)

-- The loop of eob_buff_alloc_phys, over the pieces that are left.
unfoldable pub alloc_pieces : ℕ → ℕ → M (List (List ℕ))
alloc_pieces zero size = pure []
alloc_pieces (suc n) size = do
  b ← eob_iovec_alloc_wait size
  rest ← alloc_pieces n size
  pure (b ∷ rest)

unfoldable pub eob_buff_alloc_phys : Buff → M Buff
eob_buff_alloc_phys b = do
  count ← pieces b.virt_blk_size b.phys_blk_size
  alloc_table count
  blocks ← alloc_pieces count b.phys_blk_size
  pure (record b { phys_blocks = blocks })

-- The loop of eob_buff_map_phys_to_data: `copied` is what is in the data so far, which has room for
-- `data_len` bytes.
unfoldable pub gather : ℕ → List ℕ → List (List ℕ) → M (List ℕ)
gather data_len copied [] = pure copied
gather data_len copied (b ∷ rest) = do
  in_bounds (leb (length (copied ++ b)) data_len)
  if leb data_len (length (copied ++ b))
      then pure (copied ++ b)
      else gather data_len (copied ++ b) rest

unfoldable pub eob_buff_map_phys_to_data : Buff → ℕ → M Buff
eob_buff_map_phys_to_data b data_len = do
  verify (length b.dat == 0)
  eob_iovec_alloc_wait data_len
  copied ← gather data_len [] b.phys_blocks
  verify (length copied == data_len)
  pure (record b { dat = copied })

-- The bytes of piece `i` of `count`: a whole one, and what is left for the last.
abbrev pub piece_len : ℕ → ℕ → ℕ → ℕ → ℕ
piece_len len size count i = if ltb i (sub64 count 1) then size else sub64 len (u64 (i * size))

-- The loop of eob_buff_map_data_to_phys, over the pieces that are left from piece `i` on.
unfoldable pub fill_pieces : List ℕ → ℕ → ℕ → ℕ → ℕ → M (List (List ℕ))
fill_pieces dat size count zero i = pure []
fill_pieces dat size count (suc n) i = do
  b ← eob_iovec_alloc_wait size
  let offset = u64 (i * size)
  let len = piece_len (length dat) size count i
  in_bounds (leb (offset + len) (length dat) && leb len size)
  rest ← fill_pieces dat size count n (i + 1)
  pure (overlay (take len (drop offset dat)) b ∷ rest)

unfoldable pub eob_buff_map_data_to_phys : Buff → M Buff
eob_buff_map_data_to_phys b = do
  count ← pieces (length b.dat) b.phys_blk_size
  alloc_table count
  blocks ← fill_pieces b.dat b.phys_blk_size count count 0
  pure (record b { phys_blocks = blocks })

-- Where a node's block starts on the device.
abbrev pub slot_offset : ℕ → ℕ → ℕ
slot_offset virt_blk_size node = u64 (eob_header_offset + eob_hdr_size + virt_blk_size * node)

unfoldable pub eob_buff_write_impl : Buff → ℕ → M (Unit {0})
unfolding pwrite
eob_buff_write_impl b virt_offset = do
  rv ← pwrite (slot_offset b.virt_blk_size virt_offset) (flat b.phys_blocks)
  io_result rv

unfoldable pub eob_buff_write : Buff → ℕ → M (Unit {0})
eob_buff_write b node_id = do b' ← eob_buff_map_data_to_phys b; eob_buff_write_impl b' node_id

abbrev mapped : Buff → Option (List ℕ) → M Buff
mapped b none = set_io_err
mapped b (some bs) =
    eob_buff_map_phys_to_data (record b { phys_blocks = scatter b.phys_blocks bs }) (length bs)

unfoldable pub eob_buff_read_impl : Device → Buff → M Buff
eob_buff_read_impl dev b = do
  r ← pread (length (flat b.phys_blocks)) (slot_offset b.virt_blk_size dev.addr.node_id)
  mapped b r

unfoldable pub eob_buff_read : Device → Buff → M Buff
eob_buff_read dev b = do b' ← eob_buff_alloc_phys b; eob_buff_read_impl dev b'

-- The new object, without and with the copy of the data.
abbrev pub new_buff : Device → List ℕ → Buff
new_buff dev dat = record {
  virt_blk_size = dev.hdr.h.virt_blk_size;
  phys_blk_size = dev.hdr.h.phys_blk_size;
  dat = dat;
  phys_blocks = [];
}

abbrev pub buff_with : Device → Option (List ℕ) → M (Option Buff)
buff_with dev none = pure none
buff_with dev (some dat) = pure (some (new_buff dev dat))

abbrev pub buff_from : Device → Option Iovec → M (Option Buff)
buff_from dev none = pure (some (new_buff dev []))
buff_from dev (some d) = do c ← caught (eob_iovec_copy d); buff_with dev c

-- `none` is NULL.
unfoldable pub eob_buff_create : Device → Option Iovec → M (Option Buff)
unfolding calloc eob_iovec_copy
eob_buff_create dev d = do object ← calloc; if not object then pure none else buff_from dev d

-- `if (NULL == (buff = …)) return no_memory_trace();`
abbrev pub or_no_memory {ℓ} : {A : Type ℓ} → Option A → M A
or_no_memory none = set_err eob_nomem
or_no_memory (some a) = pure a

-- What eob_buff_destroy frees is not in the model.
unfoldable pub eob_device_send_raw : Device → ℕ → Iovec → M (Unit {0})
eob_device_send_raw dev dst d = do
  b ← eob_buff_create dev (some d)
  buff ← or_no_memory b
  eob_buff_write buff dst

unfoldable pub eob_device_recv_raw : Device → M (List ℕ)
eob_device_recv_raw dev = do
  b ← eob_buff_create dev none
  buff ← or_no_memory b
  buff' ← eob_buff_read dev buff
  traced (eob_iovec_copy (iovec_of buff'.dat))
