-- ===== src/Errors.antt =====
-- The error codes of include/eoblock_defs.h and `eob_strerror` of lib/eob_log.c.
use Prim.Native.String.{String}
use eoblock.Prelude.{ℕ, Bool, true, false, Option, none, some, ◌==◌, if◌then◌else◌}

abbrev pub eob_ok : ℕ
eob_ok = 0

abbrev pub eob_nomem : ℕ
eob_nomem = 3000

abbrev pub eob_nodev : ℕ
eob_nodev = 3001

abbrev pub eob_ealready : ℕ
eob_ealready = 3002

abbrev pub eob_io : ℕ
eob_io = 3003

abbrev pub eob_chksum : ℕ
eob_chksum = 3004

abbrev pub eob_inval : ℕ
eob_inval = 3005

abbrev pub eob_ver_mism : ℕ
eob_ver_mism = 3006

abbrev eob_nalign : ℕ
eob_nalign = 3007

abbrev pub eob_2big : ℕ
eob_2big = 3008

abbrev pub eob_badusage : ℕ
eob_badusage = 3009

-- `none` is the end of the function, behind the switch: UNREACHABLE_CODE, an assertion that fails
-- in the build that CMakeLists.txt asks for (Debug).
abbrev eob_strerror : ℕ → Option String
eob_strerror e =
    if e == eob_ok
    then some "success"
    else if e == eob_nodev
    then some "nodevice"
    else if e == eob_nomem
    then some "oom"
    else if e == eob_io
    then some "io error"
    else if e == eob_inval
    then some "invalid argument"
    else if e == eob_ealready
    then some "already"
    else if e == eob_chksum
    then some "checksumm mismatch"
    else if e == eob_ver_mism
    then some "version mismatch"
    else if e == eob_nalign
    then some "wrong align"
    else if e == eob_2big
    then some "to big message"
    else if e == eob_badusage
    then some "invalid cmdline"
    else none

abbrev is_some : Option String → Bool
is_some none = false
is_some (some s) = true

-- Whether `eob_strerror` returns.
abbrev pub is_eob_err : ℕ → Bool
is_eob_err e = is_some (eob_strerror e)
