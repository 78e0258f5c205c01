-- ===== src/Tests/Messages.antt =====
-- Packets, blocks and messages between two nodes.
use eoblock.Prelude.{
  [], ◌∷◌, ◌++◌, ◌≡◌, refl, arith, List, length, replicate, length-replicate, ℕ, ltb, if◌then◌else◌,
}
use eoblock.System.{err, Write, apply_writes, ok, calm, ◌>>=◌}
use eoblock.System.Disk.{length-write_at, read_at}
use eoblock.Device.{eob_hw_addr_init_default}
use eoblock.Buff.Transfer.{slot}
use eoblock.Message.{send_size, recv_size, eob_device_send, eob_device_recv}
use eoblock.Message.Layout.{Packet, FitsPacket}
use eoblock.Errors.{eob_2big}
use eoblock.Message.Receiving.{received_on, eob_device_recv-branches}
use eoblock.Message.Sending.{packed, eob_device_send-branches}
use eoblock.Message.Delivery.{delivered, eob_device_recv-send}
use eoblock.Buff.Meanwhile.{waiting}
use eoblock.Message.Meanwhile.{message, eob_device_recv-meanwhile}
use eoblock.Tests.Samples.{
  sum_zlib, blank_disk, length-blank_disk, node_device, node_device-Carries, hello,
}

abbrev hello_packet : Packet
hello_packet = record {
  src_addr = eob_hw_addr_init_default 0 2;
  data_len = 5;
  dat = hello;
  chksum = 532;
}

hello_packet-Fits : FitsPacket 5 hello_packet
hello_packet-Fits = record { addr = refl; len = omega arith; room = refl; chksum = omega arith }

eob_device_send-branches_example :
    eob_device_send sum_zlib (node_device 0) hello 1 (calm blank_disk) ≡ (
      if ltb (node_device 0).hdr.h.virt_blk_size (length hello)
      then (err eob_2big, calm blank_disk)
      else packed sum_zlib
          (node_device 0)
          (send_size (node_device 0).hdr.h.virt_blk_size)
          hello
          1
          blank_disk)
eob_device_send-branches_example =
    eob_device_send-branches sum_zlib (node_device-Carries 0).pieces hello 1 blank_disk refl

eob_device_recv-branches_example : eob_device_recv sum_zlib (node_device 1) (calm blank_disk) ≡ (
  received_on sum_zlib (recv_size (node_device 1).hdr.h.virt_blk_size) (
      read_at
        (slot (node_device 1) (node_device 1).addr.node_id)
        (node_device 1).hdr.h.virt_blk_size
        blank_disk),
  calm blank_disk,
)
eob_device_recv-branches_example =
    eob_device_recv-branches sum_zlib (node_device-Carries 1).pieces blank_disk
      (omega (arith, length-blank_disk))

eob_device_recv-send_example :
    (eob_device_send sum_zlib (node_device 0) hello 1 >>= λ _.
    eob_device_recv sum_zlib (node_device 1))
      (calm blank_disk)
    ≡ (
      ok (record { dat = hello; src = (node_device 0).addr }),
      calm (delivered sum_zlib (node_device-Carries 0) (node_device-Carries 1) hello blank_disk),
    )
eob_device_recv-send_example =
    eob_device_recv-send sum_zlib (node_device-Carries 0) (node_device-Carries 1) hello blank_disk
      (omega arith) (omega arith) (omega (arith, length-blank_disk))

-- Another node has overwritten the header and the block before the message.
abbrev noise : List Write
noise = record { offset = 0; bytes = replicate 1536 255 } ∷ []

length-noise : length (apply_writes noise blank_disk) ≡ 1536
length-noise = omega (
  arith,
  length-blank_disk,
  length-write_at 0 (replicate 1536 255) blank_disk
      (omega (arith, length-blank_disk, length-replicate {A = ℕ} 1536 255)),
)

eob_device_recv-meanwhile_example :
    (eob_device_send sum_zlib (node_device 0) hello 1 (calm blank_disk) ≡ (
      ok tt,
      calm (
          apply_writes
            (message sum_zlib (node_device-Carries 0) (node_device-Carries 1) hello ∷ [])
            blank_disk),
    ))
    × (eob_device_recv sum_zlib (node_device 1) (
          waiting blank_disk (
            noise ++ (message sum_zlib (node_device-Carries 0) (node_device-Carries 1) hello ∷ [])))
        ≡ (
          ok (record { dat = hello; src = (node_device 0).addr }),
          calm (
              apply_writes
                (noise
                  ++ (message sum_zlib (node_device-Carries 0) (node_device-Carries 1) hello ∷ []))
                blank_disk),
        ))
eob_device_recv-meanwhile_example =
    eob_device_recv-meanwhile sum_zlib (node_device-Carries 0) (node_device-Carries 1) hello
      blank_disk noise (omega arith) (omega arith) (omega (arith, length-noise))
