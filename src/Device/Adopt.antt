-- ===== src/Device/Adopt.antt =====
-- Opening a file that has a good header, and what the open device can carry.
use native.Mathlib.Nat.{pow-le-pow_right}
use eoblock.Chksum.{Zlib}
use eoblock.Device.{HwAddr, Device, eob_device_open_file}
use eoblock.Device.Laws.{IsOpening, one_shl-small, eob_device_init_hdr_adopts}
use eoblock.Header.{header_zero}
use eoblock.HeaderIo.Laws.{IsDevice, IsGood, seen}
use eoblock.System.{ok, calm, malloc, calloc}
use eoblock.Iovec.{eob_iovec_alloc}
use eoblock.Prelude.{
  ℕ, ◌^◌, ◌≤◌, ◌<◌, ◌≡◌, refl, arith, false, List, some, replicate, length-replicate,
}

-- An address whose sizes are those of an `int` and hold a header.
pub record IsAddress (addr : HwAddr) : Type 0 where
  pub virt : addr.virt_blk_shift < 31
  pub phys : addr.phys_blk_shift < 31
  pub nodes : addr.nodes_count < 256
  pub order : addr.phys_blk_shift ≤ addr.virt_blk_shift
  pub sector : 9 ≤ addr.phys_blk_shift

-- A device with a good header of the sizes of an address.
pub record HasHeader (z : Zlib) (addr : HwAddr) (d : List ℕ) : Type 0 where
  pub device : IsDevice d
  pub good : IsGood z (seen d)
  pub phys : (seen d).h.phys_blk_size ≡ 2 ^ addr.phys_blk_shift
  pub virt : (seen d).h.virt_blk_size ≡ 2 ^ addr.virt_blk_shift

-- The device that is opened.
abbrev pub opened_device : HwAddr → List ℕ → ℕ → List ℕ → Device
opened_device addr path fd d = record {
  addr = addr;
  path = path;
  fd = fd;
  hdr = seen d;
  phys_buff = replicate (2 ^ addr.phys_blk_shift) 0;
}

-- On a calm device with a good header of the sizes of the address, eob_device_open_file opens it with
-- that header and writes nothing. `open` gives a descriptor that is not 0.
pub eob_device_open_file-adopts :
    (z : Zlib) (addr : HwAddr) (path : List ℕ) (fd : ℕ) (d : List ℕ)
    → IsAddress addr
    → HasHeader z addr d
    → 0 < fd
    → eob_device_open_file z addr path (some fd) false (calm d)
      ≡ (ok (opened_device addr path fd d), calm d)
unfolding eob_device_open_file calloc malloc eob_iovec_alloc
eob_device_open_file-adopts z addr path fd d a h opened =
    let dev : Device = record {
      addr = addr;
      path = path;
      fd = fd;
      hdr = header_zero;
      phys_buff = replicate (2 ^ addr.phys_blk_shift) 0;
    } in
    let o : IsOpening dev = record {
      opened = opened;
      virt = a.virt;
      phys = a.phys;
      nodes = a.nodes;
      buffer = length-replicate {A = ℕ} (2 ^ addr.phys_blk_shift) 0;
      sector = pow-le-pow_right {n = 2} (omega arith) a.sector;
    } in
    rw (one_shl-small addr.phys_blk_shift (calm d) a.phys)
      (rw (eob_device_init_hdr_adopts z o h.device h.good h.phys h.virt a.order) refl)
