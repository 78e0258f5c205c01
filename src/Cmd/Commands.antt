-- ===== src/Cmd/Commands.antt =====
-- cmd/iface0/iface.c: the commands and their options.
use eoblock.Prelude.{ℕ, true, false, Option, none, some, List, [], ◌∷◌, ◌==◌, if◌then◌else◌}
use eoblock.Types.{b_true, is_b_true}
use eoblock.Errors.{eob_badusage}
use eoblock.System.{M, set_err, die, undefined, traced}
use eoblock.Chksum.{Zlib}
use eoblock.Cmd.{
  Text, Opt, flag, arg, bad, Optstring, getopt, atoi, Settings, unset, read_opts, letter_v, upper_f,
  letter_f, letter_s, letter_d, letter_c, letter_n, letter_i, letter_j, upper_v, upper_p,
}
use eoblock.Cmd.Iface.{
  Os, Ran, iface_send, iface_recv, iface_hdr_dump, iface_hdr_add, iface_hdr_rem, iface_hdr_deinit,
  iface_hdr_init,
}

-- `iface_help_t`, without HELP_ALL.
pub data Help : Type 0 where
  help_test help_send help_recv help_init help_deinit help_add help_remove help_dump : Help

-- What the switches do with an option that has no argument, and with one that has.
abbrev set_flag : ℕ → Settings → Settings
set_flag c s =
    if c == letter_v
    then record s { verbose = b_true }
    else if c == upper_f
    then record s { force = b_true }
    else if c == letter_j
    then record s { json = b_true }
    else s

abbrev set_arg : ℕ → Text → Settings → Settings
set_arg c a s =
    if c == letter_s
    then record s { src = some a }
    else if c == letter_d
    then record s { dst = some a }
    else if c == letter_f
    then record s { file = some a }
    else if c == letter_c
    then record s { nodes = some a }
    else if c == letter_n
    then record s { node_id = some a }
    else if c == letter_i
    then record s { ip = some a }
    else if c == upper_v
    then record s { virt = some a }
    else if c == upper_p
    then record s { phys = some a }
    else if c == upper_f
    then record s { force = b_true }
    else s

-- The switches of all commands: `getopt` gives a command only its own letters.
abbrev pub switch : Opt → Settings → Option Settings
switch (flag c) s = some (set_flag c s)
switch (arg c a) s = some (set_arg c a s)
switch (bad c) s = none

abbrev pub opts_of : Help → Optstring
opts_of help_test = []
opts_of help_send =
    (letter_v, false)
    ∷ (upper_f, false)
    ∷ (letter_f, true)
    ∷ (letter_s, true)
    ∷ (letter_d, true)
    ∷ (letter_c, true)
    ∷ []
opts_of help_recv =
    (letter_v, false)
    ∷ (upper_f, false)
    ∷ (letter_f, true)
    ∷ (letter_s, true)
    ∷ (letter_c, true)
    ∷ []
opts_of help_init =
    (letter_v, false) ∷ (upper_f, true) ∷ (upper_v, true) ∷ (upper_p, true) ∷ (letter_c, true) ∷ []
opts_of help_deinit = (letter_v, false) ∷ []
opts_of help_add = (letter_v, false) ∷ (upper_f, false) ∷ (letter_i, true) ∷ (letter_n, true) ∷ []
opts_of help_remove = (letter_v, false) ∷ (letter_n, true) ∷ []
opts_of help_dump = (letter_v, false) ∷ (letter_j, false) ∷ []

abbrev pub badusage : M Ran
badusage = set_err eob_badusage

-- A string that must be given.
abbrev pub required : Option Text → (Text → M Ran) → M Ran
required none next = badusage
required (some t) next = next t

-- A string that is used without a test whether it was set.
abbrev unchecked : Option Text → (Text → M Ran) → M Ran
unchecked none next = undefined
unchecked (some t) next = next t

abbrev pub or_zero : Option Text → ℕ
or_zero none = 0
or_zero (some t) = atoi t

-- The operands are the command's name and the device.
abbrev pub device_of : List Text → (Text → M Ran) → M Ran
device_of (name ∷ device ∷ rest) next = next device
device_of _ next = badusage

abbrev pub with_settings : Option Settings → (Settings → M Ran) → M Ran
with_settings none next = badusage
with_settings (some s) next = next s

module _ (z : Zlib) (os : Os) where
  unfoldable pub iface_do_send : Settings → List Text → M Ran
  iface_do_send s operands = device_of operands (λ device. required s.src (λ src.
      required s.dst (λ dst.
        unchecked s.file
          (λ file. iface_send z os file device s.force (atoi src) (atoi dst) (or_zero s.nodes)))))

  unfoldable pub iface_do_recv : Settings → List Text → M Ran
  iface_do_recv s operands = device_of operands (λ device. required s.src (λ src.
      unchecked s.file
        (λ file. iface_recv z os s.verbose file device s.force (atoi src) (or_zero s.nodes))))

  unfoldable pub iface_do_dump : Settings → List Text → M Ran
  iface_do_dump s operands =
      device_of operands (λ device. if is_b_true s.json then die else traced (iface_hdr_dump z os))

  unfoldable pub iface_do_add : Settings → List Text → M Ran
  iface_do_add s operands = required s.ip (λ ip. required s.node_id (λ node_id.
      device_of operands (λ device. traced (iface_hdr_add z os (atoi node_id) s.force))))

  unfoldable pub iface_do_remove : Settings → List Text → M Ran
  iface_do_remove s operands =
      required s.node_id
        (λ node_id. device_of operands (λ device. traced (iface_hdr_rem z os (atoi node_id))))

  unfoldable pub iface_do_init : Settings → List Text → M Ran
  iface_do_init s operands =
      device_of operands
        (λ device. traced (iface_hdr_init z os (or_zero s.nodes) (or_zero s.virt) (or_zero s.phys)))

  unfoldable pub iface_do_deinit : Settings → List Text → M Ran
  iface_do_deinit s operands = device_of operands (λ device. traced (iface_hdr_deinit z os))

  -- The body of a command behind its loop over the options.
  abbrev pub body_of : Help → Settings → List Text → M Ran
  body_of help_test = λ s operands. die
  body_of help_send = iface_do_send
  body_of help_recv = iface_do_recv
  body_of help_init = iface_do_init
  body_of help_deinit = iface_do_deinit
  body_of help_add = iface_do_add
  body_of help_remove = iface_do_remove
  body_of help_dump = iface_do_dump

  -- `cmd->fn(argc, argv)`: `args` are the arguments from the command's name on.
  unfoldable pub run_command : Help → List Text → M Ran
  run_command cmd args =
      let p = getopt (opts_of cmd) args in
      with_settings (read_opts switch p.opts unset) (λ s. body_of cmd s p.operands)
