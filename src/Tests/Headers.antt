-- ===== src/Tests/Headers.antt =====
-- The header, its operations and the opening of a device, on small devices.
use eoblock.Prelude.{
  ℕ, ◌+◌, ◌-◌, ◌≡◌, ◌≢◌, refl, sym, ap, ◌∙◌, arith, false, inl, none, some, List, [], ◌∷◌,
  replicate, length-replicate, take_all,
}
use eoblock.Errors.{eob_ok, eob_chksum}
use eoblock.System.{ok, calm, quiets, ◌>>=◌}
use eoblock.System.Disk.{read_at, write_at}
use eoblock.Header.{Header, encode, header_zero}
use eoblock.Header.RoundTrip.{length-encode}
use eoblock.HeaderIo.{eob_read_header, eob_write_header, verdict}
use eoblock.HeaderIo.Laws.{
  IsDevice, IsGood, seen, settled, rewriting, Replies, eob_read_header-calm, eob_read_header-torn,
  eob_read_header_sound,
}
use eoblock.HeaderIo.Write.{eob_write_header_clears}
use eoblock.Admin.{eob_hdr_init, eob_hdr_deinit, eob_hdr_add_device}
use eoblock.Admin.Spec
use eoblock.Admin.Spec.{members}
use eoblock.Admin.Registry.{FitsHeader-header_zero, IsRegistry}
use eoblock.Admin.Laws.{Implements, eob_hdr_add_device_refines}
use eoblock.Admin.Init.{
  IsGood-fresh, IsDevice-wiped, verdict-wiped, fresh, wiped, eob_hdr_init_establishes,
  eob_hdr_deinit_invalidates,
}
use eoblock.Device.{eob_device_init_hdr}
use eoblock.Device.Laws.{
  IsOpening, next, buffer, eob_device_init_hdr_adopts, eob_device_init_hdr_renews,
}
use eoblock.Device.Open.{part_name_to_disk_name, NoDigits, part_name_to_disk_name-append}
use eoblock.Tests.Samples.{
  sum_zlib, blank_disk, blank_disk-AllBytes, length-blank_disk, small-IsLayout, small_disk,
  small_disk-IsRegistry, small_disk-sizes, small_header, small_header-Fits, node_device,
  sample_node,
}

blank_disk-IsDevice : IsDevice blank_disk
blank_disk-IsDevice = record {
  size = omega (arith, length-blank_disk);
  bytes = blank_disk-AllBytes;
}

eob_read_header-calm_example : eob_read_header sum_zlib 3 header_zero (calm blank_disk) ≡ (
  ok (record { rv = settled (verdict sum_zlib (seen blank_disk)); hdr = seen blank_disk }),
  calm blank_disk,
)
eob_read_header-calm_example =
    eob_read_header-calm sum_zlib blank_disk-IsDevice 3 (omega arith) FitsHeader-header_zero

eob_read_header_sound_example :
    Replies sum_zlib (eob_read_header sum_zlib 3 header_zero (calm blank_disk)).0
eob_read_header_sound_example =
    eob_read_header_sound sum_zlib 3 header_zero (calm blank_disk) (omega arith)

eob_write_header_clears_example :
    (d' : List ℕ) × (eob_write_header 3 small_header (calm blank_disk) ≡ (ok tt, calm d'))
    × (read_at 512 (512 - 512) d' ≡ replicate (512 - 512) 0)
eob_write_header_clears_example =
    eob_write_header_clears 3 blank_disk small_header-Fits (omega arith)
      (omega (arith, length-blank_disk)) (omega arith)

eob_hdr_init_establishes_example :
    (eob_hdr_init sum_zlib 3 2 512 512 (calm blank_disk) ≡ (ok tt, calm small_disk))
    × IsRegistry sum_zlib small_disk
    × ((j : ℕ) → members (seen small_disk) j ≡ none)
    × ((seen small_disk).h.nodes_count ≡ 2)
    × ((seen small_disk).h.virt_blk_size ≡ 512)
    × ((seen small_disk).h.phys_blk_size ≡ 512)
eob_hdr_init_establishes_example =
    eob_hdr_init_establishes sum_zlib small-IsLayout 3 blank_disk (omega arith) blank_disk-AllBytes

eob_hdr_deinit_invalidates_example :
    ((eob_hdr_deinit sum_zlib >>= λ _. eob_read_header sum_zlib 3 header_zero) (calm blank_disk)
      ≡ (ok (record { rv = eob_chksum; hdr = header_zero }), calm (wiped sum_zlib blank_disk)))
    × ((o n : ℕ) → read_at (512 + o) n (wiped sum_zlib blank_disk) ≡ read_at (512 + o) n blank_disk)
eob_hdr_deinit_invalidates_example =
    eob_hdr_deinit_invalidates sum_zlib 3 blank_disk (omega arith) blank_disk-IsDevice

eob_hdr_add_device_refines_example :
    Implements sum_zlib
      (eob_hdr_add_device sum_zlib 3 1 sample_node false (calm small_disk))
      small_disk
      (Spec.add (seen small_disk).h.nodes_count 1 sample_node false (members (seen small_disk)))
eob_hdr_add_device_refines_example =
    eob_hdr_add_device_refines sum_zlib small_disk-IsRegistry 3 1 (omega arith) sample_node false
      (omega arith)

part_name_to_disk_name-append_example :
    part_name_to_disk_name (115 ∷ 100 ∷ 97 ∷ 49 ∷ []) ≡ some (115 ∷ 100 ∷ 97 ∷ [])
unfolding NoDigits
part_name_to_disk_name-append_example =
    part_name_to_disk_name-append (115 ∷ 100 ∷ 97 ∷ []) 49 [] (refl, (refl, (refl, tt))) refl

-- A device without a header, and the header that another node writes to it.
abbrev unlabelled : List ℕ
unlabelled = wiped sum_zlib blank_disk

unlabelled-IsDevice : IsDevice unlabelled
unlabelled-IsDevice = IsDevice-wiped sum_zlib blank_disk blank_disk-IsDevice

abbrev new_header : Header
new_header = fresh sum_zlib small-IsLayout

new_header-IsGood : IsGood sum_zlib new_header
new_header-IsGood = IsGood-fresh sum_zlib small-IsLayout

eob_read_header-torn_example :
    eob_read_header sum_zlib 3 header_zero (record {
      disk = unlabelled;
      events = quiets 4 (rewriting (encode new_header) ∷ []);
      heap = [];
    })
    ≡ (
      ok (record { rv = eob_ok; hdr = new_header }),
      record { disk = write_at 0 (encode new_header) unlabelled; events = []; heap = [] },
    )
eob_read_header-torn_example =
    eob_read_header-torn sum_zlib unlabelled-IsDevice new_header-IsGood (encode new_header)
      (take_all 512 (encode new_header) (omega (arith, length-encode new_header-IsGood.fits))) 3 4
      [] (omega arith) (omega arith) (verdict-wiped sum_zlib blank_disk) FitsHeader-header_zero

first_node-IsOpening : IsOpening (node_device 0)
first_node-IsOpening = record {
  opened = omega arith;
  virt = omega arith;
  phys = omega arith;
  nodes = omega arith;
  buffer = length-replicate {A = ℕ} 512 0;
  sector = omega arith;
}

eob_device_init_hdr_renews_example :
    (eob_device_init_hdr sum_zlib (node_device 0) false (calm unlabelled) ≡ (
      ok (record (node_device 0) {
        hdr = next sum_zlib first_node-IsOpening unlabelled-IsDevice;
        phys_buff = buffer sum_zlib first_node-IsOpening unlabelled-IsDevice;
      }),
      calm (write_at 0 (buffer sum_zlib first_node-IsOpening unlabelled-IsDevice) unlabelled),
    ))
    × (seen (write_at 0 (buffer sum_zlib first_node-IsOpening unlabelled-IsDevice) unlabelled)
        ≡ next sum_zlib first_node-IsOpening unlabelled-IsDevice)
    × IsGood sum_zlib (next sum_zlib first_node-IsOpening unlabelled-IsDevice)
    × ((next sum_zlib first_node-IsOpening unlabelled-IsDevice).h.nodes ≡ (seen unlabelled).h.nodes)
eob_device_init_hdr_renews_example =
    eob_device_init_hdr_renews sum_zlib first_node-IsOpening unlabelled-IsDevice false
      (inl (λ e. not_ok (sym (ap settled (verdict-wiped sum_zlib blank_disk)) ∙ e)))
  where
    not_ok : eob_chksum ≢ eob_ok
    not_ok e = omega arith

eob_device_init_hdr_adopts_example :
    eob_device_init_hdr sum_zlib (node_device 0) false (calm small_disk)
    ≡ (ok (record (node_device 0) { hdr = seen small_disk }), calm small_disk)
eob_device_init_hdr_adopts_example =
    eob_device_init_hdr_adopts sum_zlib first_node-IsOpening small_disk-IsRegistry.device
      small_disk-IsRegistry.good small_disk-sizes.1 small_disk-sizes.0 (omega arith)
