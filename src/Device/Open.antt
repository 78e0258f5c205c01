-- ===== src/Device/Open.antt =====
-- lib/liboblock.c: `eob_device_open` and what it calls for a disk. udev is what it lists.
pub mod Never
use eoblock.Prelude.{
  ℕ, ◌*◌, ◌%◌, ◌≡◌, refl, Bool, true, false, ◌&&◌, Option, none, some, List, [], ◌∷◌, ◌++◌,
  replicate, leb, if◌then◌else◌, Bool-cases, inl, inr,
}
use eoblock.Errors.{eob_nodev, eob_io, eob_inval}
use eoblock.Macros.{highbit64}
use eoblock.System.{
  M, World, err, pure, set_err, set_io_err, undefined, verify, traced, ◌>>=◌, ◌>>◌,
}
use eoblock.Chksum.{Zlib}
use eoblock.Device.{
  HwAddr, Device, eob_hw_addr_init_default, one_shl, eob_device_open_file, eob_device_open_fd,
}
use eoblock.Sysfs.Words.{same_text}
use eoblock.Cmd.{Text, atoi}

-- DEVTYPE
pub data DevType : Type 0 where
  disk partition other : DevType

-- A block device that udev lists: DEVNAME, DEVTYPE and `queue/physical_block_size`.
pub record BlockEntry : Type 0 where
  pub devname : Text
  pub devtype : DevType
  pub physical_block_size : Text

abbrev is_digit : ℕ → Bool
is_digit c = leb 48 c && leb c 57

abbrev before : ℕ → Option Text → Option Text
before c none = none
before c (some t) = some (c ∷ t)

-- The name up to its first digit; `none` is NULL.
unfoldable pub part_name_to_disk_name : Text → Option Text
part_name_to_disk_name [] = none
part_name_to_disk_name (c ∷ cs) =
    let rest = part_name_to_disk_name cs in if is_digit c then some [] else before c rest

abbrev disk_of : DevType → Text → Option Text → Option Text
disk_of disk path found = some path
disk_of partition path found = part_name_to_disk_name path
disk_of other path found = found

-- The loop of find_disk_by_path: the last entry with the name decides.
abbrev search_disk : Text → List BlockEntry → Option Text → Option Text
search_disk path [] found = found
search_disk path (b ∷ bs) found =
    search_disk path bs (if same_text b.devname path then disk_of b.devtype path found else found)

-- `none` for the list is an `udev_new` that fails.
unfoldable pub find_disk_by_path : Option (List BlockEntry) → Text → Option Text
unfolding part_name_to_disk_name
find_disk_by_path none path = none
find_disk_by_path (some bs) path = search_disk path bs none

abbrev is_disk : DevType → Bool
is_disk disk = true
is_disk partition = false
is_disk other = false

-- The loop of udev_get_phys_blk_size; `none` is a size that is not set.
abbrev search_size : Text → List BlockEntry → Option ℕ → M (Option ℕ)
search_size path [] size = pure size
search_size path (b ∷ bs) size =
    let next = search_size path bs in
    if same_text b.devname path
    then verify (is_disk b.devtype) >> next (some (atoi b.physical_block_size))
    else next size

unfoldable udev_get_phys_blk_size : Option (List BlockEntry) → Text → M (Option ℕ)
udev_get_phys_blk_size none path = set_err eob_inval
udev_get_phys_blk_size (some bs) path = search_size path bs none

pub data Mode : Type 0 where
  block_file regular_file other_file : Mode

-- What the system answers for the path: whether it is there, what it is, a descriptor, and what udev
-- lists.
pub record PathInfo : Type 0 where
  pub access : Bool
  pub stat : Option Mode
  pub descriptor : Option ℕ
  pub udev : Option (List BlockEntry)

abbrev found_disk : Option Text → M (Unit {0})
found_disk none = set_err eob_nodev
found_disk (some t) = pure tt

abbrev set_size : Option ℕ → M ℕ
set_size none = undefined
set_size (some n) = pure n

abbrev opened : Option ℕ → M ℕ
opened none = set_io_err
opened (some fd) = pure fd

-- `(uint8_t) highbit64(4 * 4096)`, on an `int`.
abbrev virt_shift_16k : ℕ
virt_shift_16k = highbit64 32 (4 * 4096) % 256

abbrev disk_addr : ℕ → ℕ → ℕ → HwAddr
disk_addr node_id nodes_count phys_blk_size = record {
  node_id = node_id % 256;
  nodes_count = nodes_count % 256;
  virt_blk_shift = virt_shift_16k;
  phys_blk_shift = highbit64 64 phys_blk_size % 256;
  rest = replicate 12 0;
}

module _ (z : Zlib) (info : PathInfo) where
  -- The size of the block is also shifted for the log.
  unfoldable pub eob_device_open_disk : ℕ → ℕ → Text → Bool → M Device
  unfolding find_disk_by_path udev_get_phys_blk_size
  eob_device_open_disk node_id nodes_count path force = do
    found_disk (find_disk_by_path info.udev path)
    listed ← traced (udev_get_phys_blk_size info.udev path)
    fd ← opened info.descriptor
    phys_blk_size ← set_size listed
    let addr = disk_addr node_id nodes_count phys_blk_size
    one_shl addr.phys_blk_shift
    eob_device_open_fd z addr fd path force

  abbrev by_mode : Option Mode → ℕ → ℕ → Text → Bool → M Device
  by_mode none node_id nodes_count path force = set_io_err
  by_mode (some block_file) node_id nodes_count path force =
      eob_device_open_disk node_id nodes_count path force
  by_mode (some regular_file) node_id nodes_count path force =
      eob_device_open_file z (eob_hw_addr_init_default node_id nodes_count) path info.descriptor
        force
  by_mode (some other_file) node_id nodes_count path force = set_err eob_inval

  -- `access` returns 0 where the path is there.
  unfoldable pub eob_device_open : ℕ → ℕ → Text → Bool → M Device
  eob_device_open node_id nodes_count path force =
      if info.access then set_err eob_nodev else by_mode info.stat node_id nodes_count path force

  -- A path that is there is refused with EOB_NODEV, and one that is not with EOB_IO, so that no
  -- device is ever opened. What `access` does not find, `stat` does not find.
  eob_device_open_refuses :
      (info.access ≡ false → info.stat ≡ none)
      → (node_id nodes_count : ℕ) (path : Text) (force : Bool) (w : World)
      → eob_device_open node_id nodes_count path force w
        ≡ (err (if info.access then eob_nodev else eob_io), w)
  unfolding eob_device_open
  eob_device_open_refuses consistent node_id nodes_count path force w =
      elim (Bool-cases info.access) [
        | inl there ↦ rw there refl
        | inr missing ↦ rw missing (rw (consistent missing) refl)
      ]

unfoldable pub NoDigits : Text → Type 0
NoDigits [] = Unit
NoDigits (x ∷ xs) = (is_digit x ≡ false) × NoDigits xs

-- A partition's name gives its disk's, where the disk's has no digit.
pub part_name_to_disk_name-append :
    (base : Text) (c : ℕ) (rest : Text)
    → NoDigits base
    → is_digit c ≡ true
    → part_name_to_disk_name (base ++ (c ∷ rest)) ≡ some base
unfolding part_name_to_disk_name NoDigits
part_name_to_disk_name-append [] c rest h e = rw e refl
part_name_to_disk_name-append (x ∷ xs) c rest (h, hs) e =
    rw h (rw (part_name_to_disk_name-append xs c rest hs e) refl)
