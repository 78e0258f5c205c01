-- ===== src/Cmd/Parses.antt =====
-- cmd/iface0/iface.c: what the options and the operands of a command line ask for, in whatever order
-- and form they stand there.
use eoblock.Types.{is_b_true, b_false}
use eoblock.Cmd.{Text, getopt, read_opts, unset, Settings}
use eoblock.Cmd.Commands.{
  Help, help_add, help_remove, help_init, help_send, help_recv, switch, opts_of, or_zero,
}
use eoblock.Cmd.Iface.{is_dash}
use eoblock.Prelude.{ℕ, ◌≡◌, Bool, true, some, List, ◌∷◌, codes}

-- The command reads these settings and this device from its arguments, its name among them.
pub record Parses (cmd : Help) (args : List Text) (s : Settings) (device : Text) : Type 0 where
  pub settings : read_opts switch (getopt (opts_of cmd) args).opts unset ≡ some s
  pub name : Text
  pub extra : List Text
  pub operands : (getopt (opts_of cmd) args).operands ≡ name ∷ device ∷ extra

abbrev pub add_name : Text
add_name = codes "add"

abbrev pub remove_name : Text
remove_name = codes "remove"

abbrev pub init_name : Text
init_name = codes "init"

abbrev pub send_name : Text
send_name = codes "send"

abbrev pub recv_name : Text
recv_name = codes "recv"

-- What stands behind the name of the command asks for the addition of a node, by force or not.
pub record IsAdd (args : List Text) (force : Bool) (id device : Text) : Type 0 where
  pub s : Settings
  pub parses : Parses help_add (add_name ∷ args) s device
  pub node_id : s.node_id ≡ some id
  pub address : Text
  pub ip : s.ip ≡ some address
  pub force_is : is_b_true s.force ≡ force

pub record IsRemove (args : List Text) (id device : Text) : Type 0 where
  pub s : Settings
  pub parses : Parses help_remove (remove_name ∷ args) s device
  pub node_id : s.node_id ≡ some id

-- An option that is missing stands for 0.
pub record IsInit (args : List Text) (count virt phys : ℕ) (device : Text) : Type 0 where
  pub s : Settings
  pub parses : Parses help_init (init_name ∷ args) s device
  pub nodes : or_zero s.nodes ≡ count
  pub virt_is : or_zero s.virt ≡ virt
  pub phys_is : or_zero s.phys ≡ phys

-- A message, without -F.
pub record IsSend (args : List Text) (src dst : Text) (count : ℕ) (file device : Text)
    : Type 0 where
  pub s : Settings
  pub parses : Parses help_send (send_name ∷ args) s device
  pub src_is : s.src ≡ some src
  pub dst_is : s.dst ≡ some dst
  pub file_is : s.file ≡ some file
  pub force_is : s.force ≡ b_false
  pub nodes : or_zero s.nodes ≡ count

-- The receiver's, to the standard output, without -F and -v.
pub record IsRecv (args : List Text) (node : Text) (count : ℕ) (device : Text) : Type 0 where
  pub s : Settings
  pub parses : Parses help_recv (recv_name ∷ args) s device
  pub src_is : s.src ≡ some node
  pub file : Text
  pub file_is : s.file ≡ some file
  pub to_stdout : is_dash file ≡ true
  pub force_is : s.force ≡ b_false
  pub verbose_is : s.verbose ≡ b_false
  pub nodes : or_zero s.nodes ≡ count
