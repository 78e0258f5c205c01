-- ===== src/Device.antt =====
-- lib/liboblock.c: an open device and how it comes to its header.
pub mod Laws
pub mod Open
pub mod Adopt
pub mod Close
use eoblock.Prelude.{
  ℕ, ◌-◌, ◌%◌, ◌^◌, Bool, true, false, ◌&&◌, ◌||◌, not, Option, none, some, List, [], ◌∷◌, ◌++◌,
  length, take, drop, replicate, ltb, leb, ◌==◌, if◌then◌else◌,
}
use eoblock.Types.{Boolean, b_true, b_false, boolean_of, is_b_true}
use eoblock.Errors.{
  eob_ok, eob_nomem, eob_nodev, eob_ealready, eob_io, eob_chksum, eob_inval, eob_ver_mism,
}
use eoblock.Macros.{highbit64}
use eoblock.System.{
  M, World, Outcome, ok, err, abort, fault, calloc, pwrite, pure, return_err, set_err, set_io_err,
  undefined, verify, in_bounds, ◌>>=◌, ◌>>◌,
}
use eoblock.System.Disk.{overlay}
use eoblock.Iovec.{eob_iovec_alloc}
use eoblock.Header.{Header, encode, header_zero, eob_hdr_size}
use eoblock.Chksum.{Zlib, eob_header_chksum_calc}
use eoblock.HeaderIo.{
  Reply, eob_hdr_version, eob_hdr_magic, eob_header_offset, eob_device_read_header,
}

-- `struct eob_hw_addr` as its `idx` member: four bytes. `rest` is the other twelve of the sixteen
-- that the union takes.
pub record HwAddr : Type 0 where
  pub node_id : ℕ
  pub nodes_count : ℕ
  pub virt_blk_shift : ℕ
  pub phys_blk_shift : ℕ
  pub rest : List ℕ

pub record Device : Type 0 where
  pub addr : HwAddr
  pub path : List ℕ
  pub fd : ℕ
  pub hdr : Header
  pub phys_buff : List ℕ

-- EOB_HW_ADDR_INIT: the arguments are cut to bytes.
abbrev eob_hw_addr_init : ℕ → ℕ → ℕ → ℕ → HwAddr
eob_hw_addr_init node_id nodes_count vshift pshift = record {
  node_id = node_id % 256;
  nodes_count = nodes_count % 256;
  virt_blk_shift = vshift % 256;
  phys_blk_shift = pshift % 256;
  rest = replicate 12 0;
}

-- EOB_HW_ADDR_INIT_DEFAULT
abbrev pub eob_hw_addr_init_default : ℕ → ℕ → HwAddr
eob_hw_addr_init_default node_id nodes_count = eob_hw_addr_init node_id nodes_count 9 9

-- `1 << s` on `int`: not defined where the sign bit is reached.
abbrev pub one_shl : ℕ → M ℕ
one_shl s = if ltb s 31 then pure (2 ^ s) else undefined

-- What the buffer of the device holds before the header is copied to it. The test is on the header
-- that the device has so far.
abbrev pub cleared : Device → List ℕ
cleared dev =
    if ltb eob_hdr_size dev.hdr.h.phys_blk_size
    then replicate (length dev.phys_buff) 0
    else dev.phys_buff

abbrev after_write : Device → List ℕ → Option ℕ → M Device
after_write dev buf none = set_io_err
after_write dev buf (some n) = pure (record dev { phys_buff = buf })

unfoldable pub eob_device_write_header : Device → Header → M Device
unfolding pwrite
eob_device_write_header dev hdr = do
  verify (ltb 0 dev.fd)
  verify (length dev.phys_buff == hdr.h.phys_blk_size)
  in_bounds (leb eob_hdr_size (length dev.phys_buff))
  let buf = overlay (encode hdr) (cleared dev)
  rv ← pwrite eob_header_offset buf
  after_write dev buf rv

-- The codes after which the header is written anew.
abbrev is_rewritable : ℕ → Bool
is_rewritable rv = (rv == eob_chksum) || (rv == eob_ver_mism)

-- The header that is written over the one that was read: the node table and the padding stay.
abbrev pub renewed : HwAddr → ℕ → ℕ → Header → Header
renewed addr virt phys hdr = record hdr {
  h = record (hdr.h) {
    version = eob_hdr_version;
    magic = eob_hdr_magic;
    nodes_count = addr.nodes_count;
    virt_blk_size = virt;
    phys_blk_size = phys;
  };
}

module _ (z : Zlib) where
  -- The header that was read is used as it is, if its sizes are those of the address.
  unfoldable pub adopt : Device → Header → M Device
  adopt dev hdr = do
    phys ← one_shl dev.addr.phys_blk_shift
    if not (hdr.h.phys_blk_size == phys) then set_err eob_inval else do
      virt ← one_shl dev.addr.virt_blk_shift
      if not (hdr.h.virt_blk_size == virt)
          then set_err eob_inval
          else if ltb hdr.h.virt_blk_size hdr.h.phys_blk_size
          then set_err eob_inval
          else pure (record dev { hdr = hdr })

  unfoldable pub renew : Device → Header → M Device
  renew dev hdr = do
    virt ← one_shl dev.addr.virt_blk_shift
    phys ← one_shl dev.addr.phys_blk_shift
    let new = eob_header_chksum_calc z (renewed dev.addr virt phys hdr)
    dev' ← eob_device_write_header dev new
    pure (record dev' { hdr = new })

  unfoldable pub eob_device_init_hdr : Device → Bool → M Device
  eob_device_init_hdr dev force = do
    r ← eob_device_read_header z dev.fd header_zero
    if not (r.rv == eob_ok) && not (is_rewritable r.rv)
        then return_err r.rv
        else if not (r.rv == eob_ok) || is_b_true (boolean_of force)
        then renew dev r.hdr
        else adopt dev r.hdr

  -- EOB_EALREADY from `eob_device_init_hdr` is no failure.
  abbrev unless_already : Device → Outcome Device × World → Outcome Device × World
  unless_already dev (ok dev', w) = (ok dev', w)
  unless_already dev (err e, w) = if e == eob_ealready then (ok dev, w) else (err e, w)
  unless_already dev (abort, w) = (abort, w)
  unless_already dev (fault, w) = (fault, w)

  -- The object of the device and its buffer, for both functions that open one.
  abbrev new_device : HwAddr → List ℕ → M Device
  new_device addr path = do
    object ← calloc
    if not object then set_err eob_nomem else do
      size ← one_shl addr.phys_blk_shift
      buf ← eob_iovec_alloc size
      pure (record { addr = addr; path = path; fd = 0; hdr = header_zero; phys_buff = buf })

  abbrev finish : Device → Bool → M Device
  finish dev force w = unless_already dev (eob_device_init_hdr dev force w)

  -- `fd` is what `open` returns, `none` for -1.
  abbrev with_fd : Device → Option ℕ → Bool → M Device
  with_fd dev none force = set_err eob_nodev
  with_fd dev (some fd) force = finish (record dev { fd = fd }) force

  unfoldable pub eob_device_open_file : HwAddr → List ℕ → Option ℕ → Bool → M Device
  eob_device_open_file addr path fd force = do dev ← new_device addr path; with_fd dev fd force

  unfoldable pub eob_device_open_fd : HwAddr → ℕ → List ℕ → Bool → M Device
  eob_device_open_fd addr fd name force = do
    dev ← new_device addr name
    finish (record dev { fd = fd }) force
