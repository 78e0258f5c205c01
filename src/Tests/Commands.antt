-- ===== src/Tests/Commands.antt =====
-- The command line.
use eoblock.Prelude.{◌-◌, ◌^◌, ◌≡◌, refl, some, [], ◌∷◌}
use eoblock.System.{ok, calm}
use eoblock.Cmd.{Text, upper_f, getopt, read_opts, atoi}
use eoblock.Cvec.{c_vec_from, c_vec_find_by_str_field}
use eoblock.Cvec.Laws.{command_at, find_command-c_vec}
use eoblock.Cmd.Main.{stdout, exits, main, iface_command_table, find_command}
use eoblock.Cmd.Laws.{add_text, init_text, dashed}
use eoblock.Cmd.Misuse.{main-misuse}
use eoblock.Cmd.Commands.{Help, help_init}
use eoblock.Tests.Samples.{small_os, device_text, sum_zlib}

-- The option -F of `init` takes the name of the device as its argument.
main-misuse_example :
    main sum_zlib small_os (init_text ∷ dashed upper_f ∷ device_text ∷ []) (calm [])
    ≡ (ok (exits 0 (some stdout)), calm [])
unfolding find_command getopt read_opts
main-misuse_example =
    main-misuse sum_zlib small_os help_init init_text (dashed upper_f ∷ device_text ∷ []) (calm [])
      refl refl (λ e. cc e) refl

find_command-c_vec_example :
    command_at iface_command_table (
      c_vec_find_by_str_field iface_command_table
        (c_vec_from iface_command_table)
        add_text
        (λ (e : Text × Help). e.0))
    ≡ some (find_command add_text iface_command_table)
find_command-c_vec_example = find_command-c_vec add_text iface_command_table

-- " 3", "+3" and "3x" are 3; "-1" is the largest `uint64_t`; 4294967297 is 1.
atoi_values :
    (atoi (b' ' ∷ b'3' ∷ []) ≡ 3)
    × (atoi (b'+' ∷ b'3' ∷ []) ≡ 3)
    × (atoi (b'3' ∷ b'x' ∷ []) ≡ 3)
    × (atoi (b'-' ∷ b'1' ∷ []) ≡ 2 ^ 64 - 1)
    × (atoi (b'4' ∷ b'2' ∷ b'9' ∷ b'4' ∷ b'9' ∷ b'6' ∷ b'7' ∷ b'2' ∷ b'9' ∷ b'7' ∷ []) ≡ 1)
unfolding atoi
atoi_values = (refl, refl, refl, refl, refl)
