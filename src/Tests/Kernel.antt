-- ===== src/Tests/Kernel.antt =====
-- The kernel module: the commands of `mgmt`, the list of interfaces, the table of devices, the log.
use eoblock.Prelude.{ℕ, ◌≡◌, ◌≢◌, refl, arith, true, none, some, List, [], ◌∷◌, ◌++◌}
use eoblock.System.{ok, fault}
use eoblock.Sysfs.Words.{space}
use eoblock.Sysfs.{
  count, failed, enodev, Iface, Kernel, eoblock_add_iface_kobj, eoblock_remove_iface,
  eob_device_open, eob_device_close,
}
use eoblock.Sysfs.Mgmt.{read_params, exhausted, add_word, eoblock_iface_mgmt_cb}
use eoblock.Sysfs.Ifaces.{names, NotIn}
use eoblock.Sysfs.Registry.{holding, iface_of, Succeeds, eoblock_remove_iface-add}
use eoblock.Sysfs.Orderly.{IsDocumented}
use eoblock.Sysfs.Again.{Begins, IsShort, deleted, again, eoblock_add_iface_kobj-again}
use eoblock.Sysfs.Parse.{params_text, read_params-enough, eoblock_iface_mgmt_cb-add}
use eoblock.Sysfs.Cutting.{IsAscii, IsWord, Nonempty, IsToken}
use eoblock.Kmod.{BlockDevice, gone, Module, add_eob_device, remove_eob_device}
use eoblock.Kmod.Table.{with_entry, remove_eob_device-add}
use eoblock.Tests.Samples.{ascii, ok_kernel}
use eoblock.Kmod.Log.{kern_level, kern_debug, eoblock_printk, eoblock_printk-kern_debug}

ascii-IsAscii : IsAscii ascii
ascii-IsAscii = record {
  space = refl;
  newline = refl;
  letter = λ x h k. ground arith;
  lower = λ x h k. refl;
}

ok_kernel-Succeeds : Succeeds ok_kernel
ok_kernel-Succeeds = record {
  kcalloc = refl;
  kobject_init_and_add = refl;
  sysfs_create_file = refl;
  alloc_netdev = refl;
  register_netdev = refl;
}

-- "eob" and "sda".
abbrev iface_text : List ℕ
iface_text = 101 ∷ 111 ∷ 98 ∷ []

abbrev path_text : List ℕ
path_text = 115 ∷ 100 ∷ 97 ∷ []

iface_text-IsWord : IsWord ascii iface_text
unfolding IsWord
iface_text-IsWord = (refl, (refl, (refl, tt)))

path_text-IsWord : IsWord ascii path_text
unfolding IsWord
path_text-IsWord = (refl, (refl, (refl, tt)))

path_text-IsToken : IsToken path_text
unfolding IsToken
path_text-IsToken = (refl, (refl, (refl, tt)))

iface_text-Nonempty : Nonempty iface_text
unfolding Nonempty
iface_text-Nonempty = tt

path_text-Nonempty : Nonempty path_text
unfolding Nonempty
path_text-Nonempty = tt

eoblock_iface_mgmt_cb-add_example :
    eoblock_iface_mgmt_cb ascii ok_kernel
      (add_word ++ (space ∷ (iface_text ++ (space ∷ params_text ascii ascii-IsAscii path_text))))
      (holding [] [])
    ≡ eoblock_add_iface_kobj ok_kernel iface_text path_text (holding [] [])
eoblock_iface_mgmt_cb-add_example =
    eoblock_iface_mgmt_cb-add ascii ascii-IsAscii ok_kernel iface_text path_text (holding [] [])
      iface_text-Nonempty iface_text-IsWord path_text-Nonempty path_text-IsWord path_text-IsToken

read_params-enough_example : read_params ascii 4 path_text none ≢ exhausted
read_params-enough_example = read_params-enough ascii 4 path_text none (omega arith)

abbrev one_iface : List Iface
one_iface = iface_of path_text path_text ∷ []

iface_text-NotIn : NotIn iface_text (names one_iface)
unfolding NotIn
iface_text-NotIn = (refl, tt)

eoblock_remove_iface-add_example :
    eoblock_remove_iface iface_text
      (eoblock_add_iface_kobj ok_kernel iface_text path_text (holding one_iface [])).1
    ≡ (ok (count 0), holding one_iface (iface_text ∷ []))
eoblock_remove_iface-add_example =
    eoblock_remove_iface-add ok_kernel-Succeeds iface_text path_text one_iface [] (omega arith)
      (omega arith) iface_text-NotIn

-- The kernel's answers to a second `add`, whose network device is refused.
abbrev refusing_kernel : Kernel
refusing_kernel = record ok_kernel { register_netdev = 17 }

refusing_kernel-Begins : Begins refusing_kernel
refusing_kernel-Begins = record {
  kcalloc = refl;
  kobject_init_and_add = refl;
  sysfs_create_file = refl;
}

iface_text-IsShort : IsShort iface_text path_text
iface_text-IsShort = (omega arith, omega arith)

refusing_kernel-IsDocumented : IsDocumented refusing_kernel iface_text (
    deleted ok_kernel-Succeeds refusing_kernel-Begins iface_text path_text path_text one_iface []
      iface_text-IsShort iface_text-IsShort iface_text-NotIn)
unfolding NotIn eoblock_remove_iface eoblock_add_iface_kobj eob_device_open eob_device_close
refusing_kernel-IsDocumented = record {
  kobject = λ e. (refl, tt);
  netdev = λ e. absurd (ground arith);
}

eoblock_add_iface_kobj-again_example :
    ((again ok_kernel-Succeeds refusing_kernel-Begins iface_text path_text path_text one_iface []
        iface_text-IsShort iface_text-IsShort iface_text-NotIn).0
      ≡ ok (failed enodev))
    × ((eoblock_remove_iface iface_text
          (again ok_kernel-Succeeds refusing_kernel-Begins iface_text path_text path_text one_iface
            [] iface_text-IsShort iface_text-IsShort iface_text-NotIn).1).0
        ≡ fault)
    × ((eoblock_add_iface_kobj refusing_kernel iface_text path_text
          (again ok_kernel-Succeeds refusing_kernel-Begins iface_text path_text path_text one_iface
            [] iface_text-IsShort iface_text-IsShort iface_text-NotIn).1).0
        ≡ fault)
eoblock_add_iface_kobj-again_example =
    eoblock_add_iface_kobj-again ok_kernel-Succeeds refusing_kernel-Begins iface_text path_text
      path_text one_iface [] iface_text-IsShort iface_text-IsShort iface_text-NotIn iface_text
      path_text refusing_kernel-IsDocumented iface_text-NotIn refusing_kernel-Begins
      iface_text-IsShort

abbrev a_disk : BlockDevice
a_disk = record { bd_disk = some 2048 }

abbrev two_slots : Module
two_slots = record { ctx = record { devices = none ∷ none ∷ [] }; locked = 0; unlocked = 0 }

remove_eob_device-add_example :
    (remove_eob_device 1 (add_eob_device true 0 path_text 1 two_slots).1
      ≡ (ok (count 0), with_entry path_text 1 two_slots (omega arith) gone 2 2))
    × ((remove_eob_device 1
          (remove_eob_device 1 (add_eob_device true 0 path_text 1 two_slots).1).1).0
        ≡ fault)
remove_eob_device-add_example =
    remove_eob_device-add path_text 1 two_slots (omega arith) (omega arith)

eoblock_printk-kern_debug_example :
    eoblock_printk (kern_level 3) path_text iface_text
    ≡ some (kern_debug ++ (path_text ++ iface_text))
eoblock_printk-kern_debug_example = eoblock_printk-kern_debug 3 path_text iface_text (omega arith)
