-- ===== src/Tests/Lines.antt =====
-- The command lines of administrators.
use eoblock.Prelude.{◌≡◌, refl, arith, true, false, none, some, codes, List, [], ◌∷◌}
use eoblock.Admin.{or_default}
use eoblock.Types.{b_true}
use eoblock.Cmd.{Text, atoi, getopt, read_opts, unset}
use eoblock.Cmd.Administers.{Opens, IsValid, AllValid, Administers, replies, main-administers}
use eoblock.Cmd.Lines.{Line, adds, removes, run_lines}
use eoblock.Cmd.Parses.{IsAdd, IsRemove, IsInit, add_name, remove_name, init_name}
use eoblock.Cmd.Main.{exits, main}
use eoblock.System.{ok, calm}
use eoblock.Tests.Samples.{
  sum_zlib, blank_disk, blank_disk-AllBytes, small-IsLayout, small_os, device_text, one_text,
  ip_text,
}

-- "2" and "512".
abbrev nodes_text : Text
nodes_text = 50 ∷ []

abbrev size_text : Text
size_text = 53 ∷ 49 ∷ 50 ∷ []

device-Opens : Opens small_os 3
device-Opens = record { opened = refl; pos = omega arith }

-- `-n 1 -i ip disk`, `disk -v -i ip -F -n 1`, `-n1 disk` and `-V 512 -c 2 -P 512 disk`.
abbrev add_args : List Text
add_args = codes "-n" ∷ one_text ∷ codes "-i" ∷ ip_text ∷ device_text ∷ []

abbrev force_args : List Text
force_args =
    device_text ∷ codes "-v" ∷ codes "-i" ∷ ip_text ∷ codes "-F" ∷ codes "-n" ∷ one_text ∷ []

abbrev remove_args : List Text
remove_args = codes "-n1" ∷ device_text ∷ []

abbrev init_args : List Text
init_args =
    codes "-V" ∷ size_text ∷ codes "-c" ∷ nodes_text ∷ codes "-P" ∷ size_text ∷ device_text ∷ []

add_args-IsAdd : IsAdd add_args false one_text device_text
unfolding getopt read_opts unset
add_args-IsAdd = record {
  s = record unset { node_id = some one_text; ip = some ip_text };
  parses = record { settings = refl; name = add_name; extra = []; operands = refl };
  node_id = refl;
  address = ip_text;
  ip = refl;
  force_is = refl;
}

force_args-IsAdd : IsAdd force_args true one_text device_text
unfolding getopt read_opts unset
force_args-IsAdd = record {
  s = record unset { verbose = b_true; force = b_true; node_id = some one_text; ip = some ip_text };
  parses = record { settings = refl; name = add_name; extra = []; operands = refl };
  node_id = refl;
  address = ip_text;
  ip = refl;
  force_is = refl;
}

remove_args-IsRemove : IsRemove remove_args one_text device_text
unfolding getopt read_opts unset
remove_args-IsRemove = record {
  s = record unset { node_id = some one_text };
  parses = record { settings = refl; name = remove_name; extra = []; operands = refl };
  node_id = refl;
}

init_args-IsInit : IsInit init_args 2 512 512 device_text
unfolding getopt read_opts unset atoi
init_args-IsInit = record {
  s = record unset { nodes = some nodes_text; virt = some size_text; phys = some size_text };
  parses = record { settings = refl; name = init_name; extra = []; operands = refl };
  nodes = refl;
  virt_is = refl;
  phys_is = refl;
}

-- A node is added, refused, added by force, and removed.
abbrev four_lines : List Line
four_lines =
    adds small_os add_args false one_text device_text
    ∷ adds small_os add_args false one_text device_text
    ∷ adds small_os force_args true one_text device_text
    ∷ removes small_os remove_args one_text device_text
    ∷ []

four_lines-AllValid : AllValid four_lines
unfolding atoi
four_lines-AllValid = (
  added,
  (
    added,
    (
      (force_args-IsAdd, 3, device-Opens, (16777343, refl, omega arith)),
      ((remove_args-IsRemove, 3, device-Opens, omega arith), tt),
    ),
  ),
)
  where
    added : IsValid (adds small_os add_args false one_text device_text)
    added = (add_args-IsAdd, 3, device-Opens, (16777343, refl, omega arith))

main-administers_example :
    ((main sum_zlib small_os (init_name ∷ init_args) (calm blank_disk)).0 ≡ ok (exits 0 none))
    × Administers sum_zlib
        (run_lines sum_zlib four_lines
          (main sum_zlib small_os (init_name ∷ init_args) (calm blank_disk)).1)
        (replies (or_default 2 32) four_lines (λ j. none))
main-administers_example =
    main-administers sum_zlib small_os init_args device_text 2 512 512 3 blank_disk four_lines
      init_args-IsInit device-Opens small-IsLayout blank_disk-AllBytes four_lines-AllValid
