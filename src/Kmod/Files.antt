-- ===== src/Kmod/Files.antt =====
-- modules/kmod/eoblock_device.c: the file and the block device behind a network device, and how they
-- are opened and closed.
use eoblock.Prelude.{
  ℕ, zero, suc, ◌≡◌, refl, Option, none, some, List, [], ◌∷◌, ◌==◌, if◌then◌else◌, eq→==,
}
use eoblock.System.{Outcome, ok, fault}
use eoblock.Sysfs.{Code, count, failed, enodev, einval}
use eoblock.Kmod.{Ptr, err_ptr, valid, BlockDevice, EobDevice, find_disk}

-- The files that the module holds open, by the pointers to them, and the block devices that it
-- holds, by the paths that they were asked for with.
pub record Held : Type 0 where
  pub files : List ℕ
  pub disks : ℕ

-- The result of a function that returns 0 or an error, with the device and what is held.
abbrev pub Opened : Type 0
Opened = Code × EobDevice × Held

-- By what `filp_open` gives.
unfoldable eob_open_fd : Ptr ℕ → EobDevice → Held → Opened
eob_open_fd (err_ptr e) dev h = (failed e, dev, h)
eob_open_fd (valid fd) dev h =
    (count 0, record dev { fd = some fd }, record h { files = fd ∷ h.files })

abbrev net_opened : Opened → Opened
net_opened (count n, dev, h) = (count 0, dev, h)
net_opened (failed e, dev, h) = (failed enodev, dev, h)

unfoldable eob_net_device_open : Ptr ℕ → EobDevice → Held → Opened
unfolding eob_open_fd
eob_net_device_open filp dev h = net_opened (eob_open_fd filp dev h)

abbrev behind : ℕ → Option (List ℕ) → Option (List ℕ)
behind f none = none
behind f (some fs) = some (f ∷ fs)

-- `filp_close` of an open file; `none` is a use of memory that was freed.
abbrev closed : ℕ → List ℕ → Option (List ℕ)
closed fd [] = none
closed fd (f ∷ fs) = let rest = behind f (closed fd fs) in if f == fd then some fs else rest

abbrev released : Option (List ℕ) → Held → Outcome Code × Held
released none h = (fault, h)
released (some fs) h = (ok (count 0), record h { files = fs })

abbrev close_file : Option ℕ → Held → Outcome Code × Held
close_file none h = (fault, h)
close_file (some fd) h = released (closed fd h.files) h

-- The pointer to the file stays in the device.
unfoldable eob_close_fd : EobDevice → Held → Outcome Code × Held
eob_close_fd dev h = close_file dev.fd h

unfoldable eob_device_release : EobDevice → Held → Outcome Code × Held
unfolding eob_close_fd
eob_device_release dev h = eob_close_fd dev h

abbrev max_tries : ℕ
max_tries = 50

-- A disk that blkdev_get_by_path has given stays held where it has no gendisk.
abbrev blk_opened : Ptr (Option BlockDevice) → List ℕ → EobDevice → Held → Opened
blk_opened (err_ptr e) path dev h = (count e, dev, h)
blk_opened (valid none) path dev h = (failed einval, dev, h)
blk_opened (valid (some b)) path dev h =
    let h' : Held = record h { disks = suc h.disks } in
    elim b.bd_disk [
      | none ↦ (failed einval, dev, h')
      | some sectors ↦ (count 0, record dev { path = path; sectors = sectors; bdev = some b }, h')
    ]

-- An error is returned with its sign turned, so that it is positive.
unfoldable eob_open_blk : List (Ptr (Option BlockDevice)) → List ℕ → EobDevice → Held → Opened
eob_open_blk replies path dev h = blk_opened (find_disk max_tries replies).1 path dev h

abbrev put_disk : Option BlockDevice → Held → Outcome Code × Held
put_disk none h = (fault, h)
put_disk (some b) h = elim h.disks [
  | zero ↦ (fault, h)
  | suc n ↦ (ok (count 0), record h { disks = n })
]

unfoldable eob_close_blk : EobDevice → Held → Outcome Code × Held
eob_close_blk dev h = put_disk dev.bdev h

-- A network device that is opened and stopped has its file closed and nothing else; the pointer to
-- the file stays, so that stopping it once more uses the file that was freed. The file is new.
eob_device_release-open :
    (fd : ℕ) (dev : EobDevice) (h : Held)
    → closed fd h.files ≡ none
    → (eob_device_release
          (eob_net_device_open (valid fd) dev h).1
          (eob_net_device_open (valid fd) dev h).2
        ≡ (ok (count 0), h))
      × ((eob_device_release (eob_net_device_open (valid fd) dev h).1 h).0 ≡ fault)
unfolding eob_net_device_open eob_device_release
eob_device_release-open fd dev h new = (rw (eq→== fd fd refl) refl, rw new refl)
