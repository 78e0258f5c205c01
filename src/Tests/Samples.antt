-- ===== src/Tests/Samples.antt =====
-- The data of the tests: a checksum in place of zlib's, a device of three blocks, and two nodes.
use eoblock.Prelude.{
  Bool, true, none, some, ◌==◌, ◌||◌, ℕ, ◌≤◌, ◌+◌, ◌%◌, ◌^◌, ◌≡◌, refl, arith, List, [], ◌∷◌,
  length, replicate, length-replicate, AllBytes, AllBytes-zeros,
}
use eoblock.Sysfs.Words.{Ctype}
use eoblock.Sysfs.{Kernel}
use eoblock.Cmd.{Text}
use eoblock.Cmd.Iface.{Os}
use eoblock.Macros.{p2_phase}
use eoblock.Header.{Header, NodeData, FitsHeader, node_zero}
use eoblock.Chksum.{Zlib, eob_header_chksum_calc}
use eoblock.Admin.{initial}
use eoblock.Device.{Device, eob_hw_addr_init_default}
use eoblock.Buff.Transfer.{HasPieces}
use eoblock.Message.Calm.{Carries}
use eoblock.Message.Delivery.{NoNul}
use eoblock.Admin.Init.{IsLayout, IsGood-fresh, fresh, formatted, eob_hdr_init_establishes}
use eoblock.Admin.Registry.{IsRegistry}
use eoblock.HeaderIo.Laws.{seen}
use eoblock.HeaderIo.Write.{header_block, length-header_block}
use eoblock.System.Disk.{length-write_at}

abbrev total : List ℕ → ℕ
total [] = 0
total (x ∷ xs) = x + total xs

abbrev pub sum_zlib : Zlib
sum_zlib = record { crc32 = λ bs. total bs % 2 ^ 32; crc32-lt = λ bs. omega arith }

abbrev pub blank_disk : List ℕ
blank_disk = replicate 1536 0

pub blank_disk-AllBytes : AllBytes blank_disk
blank_disk-AllBytes = AllBytes-zeros 1536

pub length-blank_disk : length blank_disk ≡ 1536
length-blank_disk = length-replicate {A = ℕ} 1536 0

pub small-IsLayout : IsLayout 2 512 512
unfolding p2_phase
small-IsLayout = record {
  nodes = omega arith;
  sector = omega arith;
  order = omega arith;
  phase = refl;
  small = omega arith;
}

-- The disk that `eob_hdr_init` sets up for two nodes.
abbrev pub small_disk : List ℕ
small_disk = formatted sum_zlib small-IsLayout blank_disk

pub small_disk-IsRegistry : IsRegistry sum_zlib small_disk
small_disk-IsRegistry =
    let (done, registry, empty, nodes, virt, phys) =
      eob_hdr_init_establishes sum_zlib small-IsLayout 3 blank_disk (omega arith)
        blank_disk-AllBytes in
    registry

pub small_disk-sizes :
    ((seen small_disk).h.virt_blk_size ≡ 512) × ((seen small_disk).h.phys_blk_size ≡ 512)
small_disk-sizes =
    let (done, registry, empty, nodes, virt, phys) =
      eob_hdr_init_establishes sum_zlib small-IsLayout 3 blank_disk (omega arith)
        blank_disk-AllBytes in
    (virt, phys)

pub length-small_disk : 1536 ≤ length small_disk
unfolding eob_header_chksum_calc initial
length-small_disk = omega (
  arith,
  length-blank_disk,
  length-write_at 0 (header_block (fresh sum_zlib small-IsLayout)) blank_disk
      (omega (arith, length-blank_disk, length-fresh)),
)
  where
    length-fresh : length (header_block (fresh sum_zlib small-IsLayout)) ≡ 512
    length-fresh = length-header_block (IsGood-fresh sum_zlib small-IsLayout).fits (omega arith)

abbrev pub small_header : Header
small_header = record {
  h = record {
    magic = 0;
    version = 0;
    phys_blk_size = 512;
    virt_blk_size = 512;
    nodes_count = 2;
    nodes = replicate 32 node_zero;
  };
  padding = replicate 208 0;
  chksum = 5;
}

pub small_header-Fits : FitsHeader small_header
small_header-Fits = record {
  preamble = record {
    magic = omega arith;
    version = omega arith;
    phys = omega arith;
    virt = omega arith;
    count = omega arith;
    table = refl;
    nodes = omega arith;
  };
  padding = refl;
  padding_bytes = AllBytes-zeros 208;
  chksum = omega arith;
}

-- The open device of a node.
abbrev pub node_device : ℕ → Device
node_device i = record {
  addr = eob_hw_addr_init_default i 2;
  path = [];
  fd = 3;
  hdr = small_header;
  phys_buff = replicate 512 0;
}

node_device-HasPieces : (i : ℕ) → HasPieces (node_device i) 9 1
node_device-HasPieces i = record {
  phys = refl;
  virt = refl;
  exponent = omega arith;
  pos = omega arith;
  small = omega arith;
}

pub node_device-Carries : (i : ℕ) → Carries (node_device i) 9 1 480
node_device-Carries i = record { pieces = node_device-HasPieces i; sends = refl; addr = refl }

abbrev pub hello : List ℕ
hello = 104 ∷ 101 ∷ 108 ∷ 108 ∷ 111 ∷ []

pub hello-NoNul : NoNul hello
unfolding NoNul
hello-NoNul = (refl, (refl, (refl, (refl, (refl, tt)))))

abbrev pub sample_node : NodeData
sample_node = record { flags = 1; ip_addr = 16777343 }

-- The characters of ASCII, as far as the commands have them.
abbrev is_blank : ℕ → Bool
is_blank x = x == 32 || x == 10

abbrev pub ascii : Ctype
ascii = record { isspace = is_blank; tolower = λ x. x }

abbrev pub ok_kernel : Kernel
ok_kernel = record {
  kcalloc = true;
  kobject_init_and_add = 0;
  sysfs_create_file = 0;
  alloc_netdev = true;
  register_netdev = 0;
}

abbrev pub small_os : Os
small_os = record {
  open_file = some 4;
  open_device = some 3;
  read_input = some [];
  write_output = some 1;
  inet_aton = some 16777343;
  udev = none;
  stack = replicate 12 0;
}

-- "disk", "1" and "ip".
abbrev pub device_text : Text
device_text = 100 ∷ 105 ∷ 115 ∷ 107 ∷ []

abbrev pub one_text : Text
one_text = 49 ∷ []

abbrev pub ip_text : Text
ip_text = 105 ∷ 112 ∷ []
