-- ===== src/Tests/Lives.antt =====
-- A device at the command line, from its initialisation on.
use eoblock.Prelude.{◌≡◌, ◌<◌, inr, codes, refl, arith, false, none, some, List, [], ◌∷◌}
use eoblock.Admin.{or_default}
use eoblock.Admin.Init.{IsLayout}
use eoblock.Cluster.Mirror.{HasRoom}
use eoblock.Cmd.{Text, atoi, getopt, read_opts, unset}
use eoblock.Cmd.Administers.{Opens}
use eoblock.Cmd.Canon.{node_device-IsCluster}
use eoblock.Cmd.Follows.{Keeps}
use eoblock.Cmd.Iface.{Os}
use eoblock.Cmd.Life.{empty_but_mail, main-life}
use eoblock.Cmd.Lines.{adds, removes}
use eoblock.Cmd.Parses.{
  IsAdd, IsRemove, IsInit, IsSend, IsRecv, add_name, remove_name, init_name, send_name, recv_name,
}
use eoblock.Types.{b_true}
use eoblock.Cmd.Main.{exits, main}
use eoblock.Cmd.Messages.{printing, Readable}
use eoblock.Cmd.Post.{run_use-mail}
use eoblock.Cmd.Users.{
  Use, administers, posts, fetches, run_use, run_uses, promised, Reads, IsValid, AllValid,
}
use eoblock.System.{ok, calm}
use eoblock.Tests.Samples.{
  sum_zlib, blank_disk, blank_disk-AllBytes, length-blank_disk, small-IsLayout, small_disk,
  small_disk-IsRegistry, small_disk-sizes, length-small_disk, small_os, device_text, one_text,
  ip_text, hello, hello-NoNul,
}

-- "0", "2" and "512".
abbrev zero_text : Text
zero_text = 48 ∷ []

abbrev two_text : Text
two_text = 50 ∷ []

abbrev size_text : Text
size_text = 53 ∷ 49 ∷ 50 ∷ []

abbrev reading_os : Os
reading_os = record small_os { read_input = some hello }

device-Opens : Opens small_os 3
device-Opens = record { opened = refl; pos = omega arith }

reading-Opens : Opens reading_os 3
reading-Opens = record { opened = refl; pos = omega arith }

abbrev dash : Text
dash = codes "-"

-- `-i ip -n 1 disk`, `-n 1 disk`, `-c 2 -V 512 -P 512 disk` and `-s 1 -c 2 -f - disk`.
abbrev add_args : List Text
add_args = codes "-i" ∷ ip_text ∷ codes "-n" ∷ one_text ∷ device_text ∷ []

abbrev remove_args : List Text
remove_args = codes "-n" ∷ one_text ∷ device_text ∷ []

abbrev init_args : List Text
init_args =
    codes "-c" ∷ two_text ∷ codes "-V" ∷ size_text ∷ codes "-P" ∷ size_text ∷ device_text ∷ []

abbrev recv_args : List Text
recv_args = codes "-s" ∷ one_text ∷ codes "-c" ∷ two_text ∷ codes "-f" ∷ dash ∷ device_text ∷ []

-- With -v, and from a file.
abbrev send_args : Text → Text → List Text
send_args src dst =
    codes "-v"
    ∷ codes "-f"
    ∷ one_text
    ∷ codes "-d"
    ∷ dst
    ∷ codes "-s"
    ∷ src
    ∷ codes "-c"
    ∷ two_text
    ∷ device_text
    ∷ []

add_args-IsAdd : IsAdd add_args false one_text device_text
unfolding getopt read_opts unset
add_args-IsAdd = record {
  s = record unset { node_id = some one_text; ip = some ip_text };
  parses = record { settings = refl; name = add_name; extra = []; operands = refl };
  node_id = refl;
  address = ip_text;
  ip = refl;
  force_is = refl;
}

remove_args-IsRemove : IsRemove remove_args one_text device_text
unfolding getopt read_opts unset
remove_args-IsRemove = record {
  s = record unset { node_id = some one_text };
  parses = record { settings = refl; name = remove_name; extra = []; operands = refl };
  node_id = refl;
}

init_args-IsInit : IsInit init_args (atoi two_text) 512 512 device_text
unfolding getopt read_opts unset atoi
init_args-IsInit = record {
  s = record unset { nodes = some two_text; virt = some size_text; phys = some size_text };
  parses = record { settings = refl; name = init_name; extra = []; operands = refl };
  nodes = refl;
  virt_is = refl;
  phys_is = refl;
}

recv_args-IsRecv : IsRecv recv_args one_text (atoi two_text) device_text
unfolding getopt read_opts unset
recv_args-IsRecv = record {
  s = record unset { nodes = some two_text; src = some one_text; file = some dash };
  parses = record { settings = refl; name = recv_name; extra = []; operands = refl };
  src_is = refl;
  file = dash;
  file_is = refl;
  to_stdout = refl;
  force_is = refl;
  verbose_is = refl;
  nodes = refl;
}

send_args-IsSend :
    (src dst : Text) → IsSend (send_args src dst) src dst (atoi two_text) one_text device_text
unfolding getopt read_opts unset
send_args-IsSend src dst = record {
  s = record unset {
    verbose = b_true;
    nodes = some two_text;
    src = some src;
    dst = some dst;
    file = some one_text;
  };
  parses = record { settings = refl; name = send_name; extra = []; operands = refl };
  src_is = refl;
  dst_is = refl;
  file_is = refl;
  force_is = refl;
  nodes = refl;
}

one_text-Readable : Readable reading_os one_text
one_text-Readable = inr (refl, omega arith, (4, refl))

hello-Reads : Reads reading_os hello
hello-Reads = record { input = refl; nonul = hello-NoNul; short = omega arith; bytes = omega arith }

-- A node is added, and refused, another one sends to itself, and the node receives and is removed.
abbrev five_uses : List Use
five_uses =
    administers (adds small_os add_args false one_text device_text)
    ∷ administers (adds small_os add_args false one_text device_text)
    ∷ posts reading_os (send_args one_text zero_text) one_text zero_text hello device_text
    ∷ fetches small_os recv_args one_text device_text
    ∷ administers (removes small_os remove_args one_text device_text)
    ∷ []

fetch-IsValid : IsValid two_text 2 (fetches small_os recv_args one_text device_text)
unfolding atoi
fetch-IsValid = (recv_args-IsRecv, 3, device-Opens, refl, omega arith)

post-IsValid :
    (src dst : Text)
    → atoi src < 2
    → atoi dst < 2
    → IsValid two_text 2 (posts reading_os (send_args src dst) src dst hello device_text)
post-IsValid src dst from to = (
  one_text,
  send_args-IsSend src dst,
  one_text-Readable,
  3,
  reading-Opens,
  refl,
  hello-Reads,
  from,
  to,
)

five_uses-AllValid : AllValid two_text 2 five_uses
unfolding atoi
five_uses-AllValid = (
  added,
  (
    added,
    (
      post-IsValid one_text zero_text (omega arith) (omega arith),
      (fetch-IsValid, ((remove_args-IsRemove, 3, device-Opens, omega arith), tt)),
    ),
  ),
)
  where
    added : IsValid two_text 2 (administers (adds small_os add_args false one_text device_text))
    added = (add_args-IsAdd, 3, device-Opens, (16777343, refl, omega arith))

sizes-IsLayout : IsLayout (atoi two_text) 512 512
unfolding atoi
sizes-IsLayout = small-IsLayout

blank_disk-HasRoom : HasRoom sum_zlib (node_device-IsCluster two_text 2 (omega arith)) blank_disk
blank_disk-HasRoom i inside = omega (arith, length-blank_disk)

main-life_example :
    ((main sum_zlib small_os (init_name ∷ init_args) (calm blank_disk)).0 ≡ ok (exits 0 none))
    × Keeps sum_zlib two_text {n = 2}
        (omega arith)
        (or_default (atoi two_text) 32)
        (run_uses sum_zlib five_uses
          (main sum_zlib small_os (init_name ∷ init_args) (calm blank_disk)).1)
        (promised
          (or_default (atoi two_text) 32)
          two_text
          five_uses
          (empty_but_mail sum_zlib two_text blank_disk))
main-life_example =
    main-life sum_zlib two_text 512 512 (omega arith) sizes-IsLayout refl refl small_os init_args
      device_text 3 init_args-IsInit device-Opens blank_disk blank_disk-AllBytes
      (omega (arith, length-blank_disk)) blank_disk-HasRoom five_uses five_uses-AllValid

small_disk-HasRoom : HasRoom sum_zlib (node_device-IsCluster two_text 2 (omega arith)) small_disk
small_disk-HasRoom i inside = omega (arith, length-small_disk)

run_use-mail_example :
    (run_use sum_zlib
      (fetches small_os recv_args one_text device_text)
      (run_uses sum_zlib
        (posts reading_os (send_args zero_text one_text) zero_text one_text hello device_text
          ∷ five_uses)
        (calm small_disk)).1).0
    ≡ (ok (exits 0 none), some (ok (printing hello)))
unfolding atoi
run_use-mail_example =
    run_use-mail sum_zlib two_text (omega arith) small_disk-IsRegistry small_disk-sizes.1
      small_disk-sizes.0 small_disk-HasRoom reading_os small_os (send_args zero_text one_text)
      recv_args zero_text one_text hello device_text device_text five_uses
      (post-IsValid zero_text one_text (omega arith) (omega arith), five_uses-AllValid)
      fetch-IsValid (refl, tt)
