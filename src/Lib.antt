-- ===== src/Lib.antt =====
-- Verification of eoblock: messages between the nodes of a cluster over a block device that they
-- share. A user program (cmd/iface0) and a kernel module (modules/kmod) stand on a library (lib)
-- that keeps a header and one block per node on the device.
--
-- The parts, and the files that model them:
-- - Macros, Macros/Digits, Macros/High, Macros/Laws, Macros/Powers, Macros/Rounding,
--   Macros/Crossing, Macros/Highest, Macros/Alignment: the power-of-two macros and highbit64 of
--   include/eoblock_defs.h, on uint64_t and on unsigned types of 32 bits or more, which C does not
--   promote.
-- - Errors: the codes of include/eoblock_defs.h and eob_strerror of lib/eob_log.c. Types: boolean_t
--   and eob_log_lvl.
-- - System, System/Disk: what the C code runs on. A function is a step from a World to an Outcome
--   and a World; an Outcome is a value, an error code, a program stopped by an assertion, or
--   undefined behaviour. A World has the bytes of the device, what the next system calls do (writes
--   of other nodes before the call, a failure, a short transfer) and what the next allocations
--   give. `calm d` is the device with bytes `d` where nothing interferes.
-- - Log: lib/eob_log.c, the lines that a message adds to the log and the console.
-- - Iovec: eob_iovec_* and memdup. Chksum: lib/chksum.c, over zlib's crc32 as a parameter.
-- - Header, Header/RoundTrip, Header/Decode, Header/Exact: struct eob_header of include/eoblock.h
--   as bytes.
-- - HeaderIo, HeaderIo/Laws, HeaderIo/Write: eob_read_header, with its passes, and
--   eob_write_header.
-- - Admin, Admin/Spec, Admin/Registry, Admin/Laws, Admin/Init, Admin/Race (two administrators at
--   once), Admin/Requests (one command), Admin/Behind and Admin/Formatted (what stays):
--   eob_hdr_init, eob_hdr_deinit, eob_hdr_add_device, eob_hdr_rem_device and eob_hdr_dump, and the
--   membership that they stand for.
-- - Device, Device/Laws, Device/Adopt, Device/Open, Device/Open/Never (disks), Device/Close: struct
--   eob_device, eob_device_init_hdr, the eob_device_open functions and eob_device_close. What udev
--   lists is an argument.
-- - Buff, Buff/Pieces, Buff/Transfer, with failures Buff/Offline and Buff/Frame, and
--   Buff/Meanwhile: eob_buff_*, eob_device_send_raw and eob_device_recv_raw. System/Offline has the
--   steps without a system call.
-- - Message, Message/Layout, Message/Receiving and Message/Sending (all branches), Message/Calm,
--   Message/Delivery, Message/Frame and Message/Sound (failures), Message/Meanwhile (a send during
--   a receive), Message/Session (two programs), Message/Apart (messages and administration):
--   packets, eob_device_send, eob_device_recv and the functions for strings.
-- - Cluster, Cluster/Spec, Cluster/Mirror, Cluster/Sending, Cluster/Steps, Cluster/Refines,
--   Cluster/Mail, Cluster/Cells, Cluster/Schedule (the order of calls), Cluster/Overlap (messages
--   while a node is added): administrators and nodes that use one device, and the membership and
--   the mailboxes that it stands for. A call on a calm device is one step; each system call of a
--   send or a receive is the only one that it makes on the device.
-- - Sysfs, Sysfs/Words, Sysfs/Ifaces, Sysfs/Registry, Sysfs/Mgmt (the parameters and the writes),
--   Sysfs/Cutting, Sysfs/Parse, Sysfs/Orderly, Sysfs/Again (a name that is added again),
--   Sysfs/Bounds, Sysfs/Invariant (any sequence of writes), Sysfs/Attributes (the files),
--   Sysfs/Decimal, Sysfs/SetupId: modules/kmod/eoblock_sysfs.c. The list of interfaces has an entry
--   for freed memory that was not unlinked. What the kernel's functions return is an argument, the
--   record Kernel; that it refuses names that are there is a hypothesis.
-- - Kmod, Kmod/Table, Kmod/Files, Kmod/Life (the start, the events and the end), Kmod/Steady,
--   Kmod/Log: modules/kmod/eoblock_device.c, eoblock_main.c and eoblock_debug.c.
-- - Cmd, Cmd/Iface, Cmd/Commands, Cmd/Main, Cmd/Laws, Cmd/Misuse, Cmd/Parses (what a command line
--   asks for), Cmd/Messages, Cmd/Lines, Cmd/Administers (one command line of an administrator after
--   the other), Cmd/Users, Cmd/Mailing, Cmd/Canon, Cmd/Follows, Cmd/Life, Cmd/Post (command lines
--   of administrators and of nodes, against the same membership and mailboxes): cmd/iface0/iface.c.
--   getopt and atoi of the C library are written out, as glibc has them; what the calls on other
--   files return is an argument, the record Os. Cmd/SelfTest, Cmd/SelfTestRuns:
--   cmd/iface0/iface_test.c, over an AVL tree as a parameter.
-- - Cvec, Cvec/Laws: include/sys/cvec.h, the views of arrays, which main searches for a command.
-- - Prelude and its children: tests on numbers, lists, bytes. Tests and its children: the theorems
--   at concrete inputs.
--
-- The library's functions call each other as in the C code: Message calls Buff, Admin and Device
-- call HeaderIo, Cmd calls Admin, Device and Message. In the kernel module Kmod starts and ends
-- Sysfs.
--
-- Bounds: numbers are ℕ, with `% 2 ^ 64` where the C code computes on uint64_t and with a test
-- where an int is shifted. The passes of a read are ten, as in the code. The loop over the
-- parameters of an `add` has the length of the text and one as its fuel, which is more than the
-- tokens it can hold. A search for a disk is a recursion on the calls that are left, fifty at the
-- start.
--
-- Not modelled: the texts of log messages, of usages and of what the tests print, and where the
-- functions write to the log; how memory is freed, where nothing uses it afterwards; the transfer
-- of network packets, which the kernel module does not do; lib/libavl and lib/libvec, which are
-- copies of other projects; eoblock.py, the manual page and the build files.
pub mod Prelude
pub mod Macros
pub mod Errors
pub mod System
pub mod Iovec
pub mod Log
pub mod Header
pub mod Types
pub mod Chksum
pub mod HeaderIo
pub mod Admin
pub mod Device
pub mod Buff
pub mod Message
pub mod Cluster
pub mod Sysfs
pub mod Kmod
pub mod Cmd
pub mod Cvec
pub mod Tests
