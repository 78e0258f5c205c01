-- ===== src/Message/Sound.antt =====
-- eob_device_recv when other nodes write meanwhile, and when allocations and system calls fail or fall
-- short: what it accepts.
use eoblock.System.{World, Outcome, ok, M, pure, set_err, ◌>>=◌}
use eoblock.System.Offline.{Offline}
use eoblock.Errors.{eob_chksum}
use eoblock.Chksum.{Zlib, eob_chcksum_calc}
use eoblock.Device.{Device}
use eoblock.Buff.{eob_device_recv_raw}
use eoblock.Message.{Received, recv_size, implemented, unpack}
use eoblock.Message.Layout.{Packet, decode_packet, eob_pkt_ndata_len}
use eoblock.Prelude.{ℕ, ◌+◌, ◌≤◌, ◌<◌, ◌≡◌, List, length, take, ◌==◌, if◌then◌else◌}

-- The packet in the bytes has data that fit its array.
record IsUnpacked (size : ℕ) (bs : List ℕ) (p : Packet) : Type 0 where
  pos : 0 < (decode_packet size bs).data_len
  fits : (decode_packet size bs).data_len ≤ size
  whole : size + eob_pkt_ndata_len ≤ length bs
  packet : p ≡ record (decode_packet size bs) {
    dat = take (decode_packet size bs).data_len (decode_packet size bs).dat;
  }

module _ (z : Zlib) (dev : Device) (size : ℕ) where
  -- What the data that are handed over have to do with the bytes of the block.
  pub record IsReceived (bs : List ℕ) (m : Received) : Type 0 where
    pub pos : 0 < (decode_packet size bs).data_len
    pub fits : (decode_packet size bs).data_len ≤ size
    pub whole : size + eob_pkt_ndata_len ≤ length bs
    pub dat : m.dat ≡ take (decode_packet size bs).data_len (decode_packet size bs).dat
    pub src : m.src ≡ (decode_packet size bs).src_addr
    pub sum : eob_chcksum_calc z m.dat ≡ (decode_packet size bs).chksum

  -- What eob_device_recv does with the bytes of the block.
  abbrev pub taken : List ℕ → M Received
  taken bs = do
    n ← implemented (recv_size dev.hdr.h.virt_blk_size)
    pkt ← unpack n bs
    if eob_chcksum_calc z pkt.dat == pkt.chksum
        then pure (record { dat = pkt.dat; src = pkt.src_addr })
        else set_err eob_chksum

  -- A call that comes to data does so from the bytes of a raw receive.
  abbrev pub FromBlock : World → Outcome Received → Type 0
  FromBlock w (ok m) = (bs : List ℕ) × ((eob_device_recv_raw dev w).0 ≡ ok bs) × IsReceived bs m
  FromBlock w _ = Unit
