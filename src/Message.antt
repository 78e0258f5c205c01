-- ===== src/Message.antt =====
-- lib/liboblock.c and include/eoblock.h: the packet that a node's block holds, and `eob_device_send`
-- and `eob_device_recv`.
pub mod Layout
pub mod Receiving
pub mod Calm
pub mod Sending
pub mod Delivery
pub mod Frame
pub mod Session
pub mod Sound
pub mod Meanwhile
pub mod Apart
use eoblock.Prelude.{
  ℕ, suc, ◌+◌, ◌-◌, ◌*◌, Bool, Option, none, some, List, [], ◌∷◌, ◌++◌, length, take, drop,
  replicate, ltb, leb, ◌==◌, if◌then◌else◌, le_bytes, le_value,
}
use eoblock.Errors.{eob_chksum, eob_2big}
use eoblock.System.{M, pure, set_err, die, undefined, verify, in_bounds, ◌>>=◌, ◌>>◌}
use eoblock.System.Disk.{overlay}
use eoblock.Iovec.{Iovec, memdup, eob_iovec_alloc_wait}
use eoblock.Chksum.{Zlib, eob_chcksum_calc}
use eoblock.Device.{HwAddr, Device}
use eoblock.Buff.{eob_device_send_raw, eob_device_recv_raw}
use eoblock.Message.Layout.{Packet, encode_packet, decode_packet, eob_pkt_ndata_len}

abbrev pub eob_max_virt_blk_size : ℕ
eob_max_virt_blk_size = 1 * 1024 * 1024

-- The sizes that the switch of eob_device_send has a case for; `none` is NOT_IMPLEMENTED.
abbrev pub send_size : ℕ → Option ℕ
send_size virt =
    if virt == 512
    then some (512 - eob_pkt_ndata_len)
    else if virt == 4096
    then some (4096 - eob_pkt_ndata_len)
    else none

-- The same for eob_device_recv.
abbrev pub recv_size : ℕ → Option ℕ
recv_size virt =
    if virt == 512
    then some (512 - eob_pkt_ndata_len)
    else if virt == 4096
    then some (4096 - eob_pkt_ndata_len)
    else if virt == 8192
    then some (8192 - eob_pkt_ndata_len)
    else none

abbrev pub implemented : Option ℕ → M ℕ
implemented none = die
implemented (some n) = pure n

-- What a receiver gets: the data and the sender's address.
pub record Received : Type 0 where
  pub dat : List ℕ
  pub src : HwAddr

-- The structure lies in the received bytes, and the data in its array.
unfoldable pub unpack : ℕ → List ℕ → M Packet
unpack size bs = do
  in_bounds (leb (size + eob_pkt_ndata_len) (length bs))
  let pkt = decode_packet size bs
  verify (ltb pkt.data_len eob_max_virt_blk_size)
  eob_iovec_alloc_wait pkt.data_len
  in_bounds (leb pkt.data_len size)
  pure (record pkt { dat = take pkt.data_len pkt.dat })

-- The characters before the first NUL, or all.
abbrev pub strlen : List ℕ → ℕ
strlen [] = 0
strlen (x ∷ xs) = let rest = strlen xs in if x == 0 then 0 else suc rest

module _ (z : Zlib) where
  -- The packet around the data, in a structure with room for `size` bytes of it.
  abbrev pub packet_of : Device → List ℕ → ℕ → Packet
  packet_of dev dat size = record {
    src_addr = dev.addr;
    data_len = length dat;
    dat = overlay dat (replicate size 0);
    chksum = eob_chcksum_calc z dat;
  }

  -- `vpkt`: the packet's bytes in new memory, which is NULL where there is none.
  abbrev pub vpkt_of : List ℕ → Option (List ℕ) → Iovec
  vpkt_of bs base = record { iov_len = length bs; iov_base = base }

  -- `memcpy` to `pkt.data` is defined for what fits the array.
  unfoldable pub eob_device_send : Device → List ℕ → ℕ → M (Unit {0})
  eob_device_send dev dat dst =
      if ltb dev.hdr.h.virt_blk_size (length dat) then set_err eob_2big else do
        size ← implemented (send_size dev.hdr.h.virt_blk_size)
        in_bounds (leb (length dat) size)
        let bs = encode_packet (packet_of dev dat size)
        base ← memdup bs
        eob_device_send_raw dev dst (vpkt_of bs base)

  unfoldable pub eob_device_recv : Device → M Received
  eob_device_recv dev = do
    bs ← eob_device_recv_raw dev
    size ← implemented (recv_size dev.hdr.h.virt_blk_size)
    pkt ← unpack size bs
    if eob_chcksum_calc z pkt.dat == pkt.chksum
        then pure (record { dat = pkt.dat; src = pkt.src_addr })
        else set_err eob_chksum

  -- `s` has no NUL, which is sent with it.
  unfoldable pub eob_device_send_str : Device → List ℕ → ℕ → M (Unit {0})
  eob_device_send_str dev s dst = eob_device_send dev (s ++ (0 ∷ [])) dst

  -- The string and the sender; `none` is NULL. `strlen` reads on behind data without a NUL, which is
  -- not defined.
  unfoldable pub eob_device_recv_str : Device → M (Option (List ℕ) × HwAddr)
  eob_device_recv_str dev = do
    r ← eob_device_recv dev
    if length r.dat == 0 then pure (none, r.src) else do
      in_bounds (ltb (strlen r.dat) (length r.dat))
      verify (strlen r.dat + 1 == length r.dat)
      pure (some (take (strlen r.dat) r.dat), r.src)
