-- ===== src/Tests/Sessions.antt =====
-- Two programs on one device, an administrator that another one interrupts, and the self-test.
use eoblock.Prelude.{
  ℕ, ◌≤◌, ◌≡◌, refl, arith, true, false, ◌++◌, inl, none, some, List, [], ◌∷◌, replicate,
  AllBytes-zeros,
}
use eoblock.System.{World, short, ok, calm, fault, ◌>>=◌}
use eoblock.System.Disk.{read_at}
use eoblock.Device.{HwAddr, eob_hw_addr_init_default}
use eoblock.Device.Open.{find_disk_by_path, disk, PathInfo, block_file, eob_device_open_disk}
use eoblock.Device.Open.Never.{Shut, eob_device_open_disk-never}
use eoblock.Device.Adopt.{HasHeader}
use eoblock.Message.{eob_device_send}
use eoblock.Message.Frame.{eob_device_send-outside}
use eoblock.Message.Session.{IsNode, Agree, with_message, send_program, recv_program, session}
use eoblock.Cmd.{Text}
use eoblock.Cmd.Iface.{Os}
use eoblock.Device.Close.{freed, eob_device_close}
use eoblock.Cmd.SelfTest.{
  str_data, sent_and_received, my_addr, test_eob_open_alloc_close, main_test,
}
use eoblock.Cmd.SelfTestRuns.{main_test-double_close}
use eoblock.Tests.Samples.{
  sum_zlib, blank_disk, length-blank_disk, small_disk, small_disk-IsRegistry, small_disk-sizes,
  length-small_disk, node_device, node_device-Carries, hello, hello-NoNul,
}

-- A write that stops after 100 bytes.
abbrev short_world : World
short_world = record {
  disk = blank_disk;
  events = record { others = []; effect = short 100 } ∷ [];
  heap = [];
}

eob_device_send-outside_example :
    read_at 0 512 (eob_device_send sum_zlib (node_device 0) hello 1 short_world).1.disk
    ≡ read_at 0 512 blank_disk
eob_device_send-outside_example =
    eob_device_send-outside sum_zlib (node_device-Carries 0) 0 512 1 hello short_world (refl, tt)
      (inl (omega arith, omega (arith, length-blank_disk)))

small_disk-HasHeader :
    (a : HwAddr) → a.virt_blk_shift ≡ 9 → a.phys_blk_shift ≡ 9 → HasHeader sum_zlib a small_disk
small_disk-HasHeader a v p = record {
  device = small_disk-IsRegistry.device;
  good = small_disk-IsRegistry.good;
  phys = rw p small_disk-sizes.1;
  virt = rw v small_disk-sizes.0;
}

abbrev node : ℕ → HwAddr
node i = eob_hw_addr_init_default i 2

node-IsNode : (i : ℕ) → i ≤ 1 → IsNode (node i)
node-IsNode i h = record {
  address = record {
    virt = omega arith;
    phys = omega arith;
    nodes = omega arith;
    order = omega arith;
    sector = omega arith;
  };
  bytes = omega arith;
  rest = refl;
}

nodes-Agree : Agree (node 0) (node 1) 480
nodes-Agree = record {
  from = node-IsNode 0 (omega arith);
  to = node-IsNode 1 (omega arith);
  virt = refl;
  phys = refl;
  count = 1;
  pos = omega arith;
  pieces = refl;
  sends = refl;
}

-- "disk".
abbrev path : Text
path = 100 ∷ 105 ∷ 115 ∷ 107 ∷ []

session_example :
    (send_program sum_zlib path (node 0) 3 hello 1 >>= λ _. recv_program sum_zlib path (node 1) 4)
      (calm small_disk)
    ≡ (
      ok (some hello, node 0),
      calm (
          with_message sum_zlib nodes-Agree
            (small_disk-HasHeader (node 0) refl refl)
            path
            3
            4
            (hello ++ (0 ∷ []))),
    )
session_example =
    session sum_zlib path nodes-Agree (small_disk-HasHeader (node 0) refl refl) 3 4 (omega arith)
      (omega arith) hello hello-NoNul (omega arith) (omega arith) (omega (arith, length-small_disk))

abbrev listing_os : Os
listing_os = record {
  open_file = some 4;
  open_device = some 3;
  read_input = some [];
  write_output = some 1;
  inet_aton = none;
  udev = some (record { devname = path; devtype = disk; physical_block_size = [] } ∷ []);
  stack = replicate 12 0;
}

main_test-double_close_example :
    (d' : List ℕ) × (d'' : List ℕ) × (test_eob_open_alloc_close sum_zlib listing_os path
        (calm small_disk)
      ≡ (ok tt, calm d'))
    × (sent_and_received sum_zlib listing_os path (calm d')
        ≡ (ok (freed, (some str_data, eob_hw_addr_init_default 0 2)), calm d''))
    × (eob_device_close freed (calm d'') ≡ (fault, calm d''))
    × (main_test sum_zlib listing_os (some path) (calm small_disk) ≡ (fault, calm d''))
unfolding find_disk_by_path
main_test-double_close_example =
    main_test-double_close sum_zlib listing_os path path 3 refl refl (omega arith) refl
      (AllBytes-zeros 12) (small_disk-HasHeader (my_addr sum_zlib listing_os path) refl refl)
      length-small_disk

abbrev a_disk : PathInfo
a_disk = record {
  access = true;
  stat = some block_file;
  descriptor = some 3;
  udev =
      some
        (record { devname = path; devtype = disk; physical_block_size = 53 ∷ 49 ∷ 50 ∷ [] } ∷ []);
}

eob_device_open_disk-never_example :
    Shut (eob_device_open_disk sum_zlib a_disk 0 2 path false (calm small_disk)).0
eob_device_open_disk-never_example =
    eob_device_open_disk-never sum_zlib a_disk 0 2 path false (calm small_disk)
