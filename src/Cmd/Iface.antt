-- ===== src/Cmd/Iface.antt =====
-- cmd/iface0/iface.c: `iface_send`, `iface_recv` and the `iface_hdr_*` functions, which open the files
-- and call the library.
use eoblock.Prelude.{
  ℕ, Bool, true, false, not, Option, none, some, List, [], ◌∷◌, length, take, ltb, ◌==◌,
  if◌then◌else◌,
}
use eoblock.Types.{Boolean, b_true, b_false, is_b_true}
use eoblock.System.{
  M, calloc, pure, set_io_err, die, undefined, verify, in_bounds, traced, ◌>>=◌, ◌>>◌,
}
use eoblock.Header.{NodeData}
use eoblock.Chksum.{Zlib}
use eoblock.Device.{
  HwAddr, Device, eob_hw_addr_init_default, one_shl, eob_device_open_file, eob_device_open_fd,
}
use eoblock.Device.Open.{BlockEntry}
use eoblock.Message.{strlen, eob_device_send_str, eob_device_recv_str}
use eoblock.Admin.{
  eob_hdr_init, eob_hdr_deinit, eob_hdr_add_device, eob_hdr_rem_device, eob_hdr_dump, Dump,
}
use eoblock.Buff.{caught}
use eoblock.Cmd.{Text}

-- What the system answers to the calls on other files than the device: `open` gives a descriptor,
-- `read` bytes, `write` the number of bytes, `inet_aton` an address, and udev a list. `none` is a
-- failure. `stack` are the bytes of an address that are not set.
pub record Os : Type 0 where
  pub open_file : Option ℕ
  pub open_device : Option ℕ
  pub read_input : Option (List ℕ)
  pub write_output : Option ℕ
  pub inet_aton : Option ℕ
  pub udev : Option (List BlockEntry)
  pub stack : List ℕ

-- A text that was written, with the number of the sender where that is printed before it.
pub record Output : Type 0 where
  pub sender : Option ℕ
  pub text : Text

-- What a command comes to: the value it returns, what it wrote to its output, and what it printed.
pub record Ran : Type 0 where
  pub rv : ℕ
  pub output : Option Output
  pub dump : Option Dump

abbrev ran : ℕ → Ran
ran rv = record { rv = rv; output = none; dump = none }

abbrev pub succeeds : M (Unit {0}) → M Ran
succeeds m = do m; pure (ran 0)

abbrev pub is_dash : Text → Bool
is_dash (x ∷ []) = x == 45
is_dash _ = false

abbrev pub path_max : ℕ
path_max = 4096

abbrev opened : Option ℕ → M ℕ
opened none = set_io_err
opened (some fd) = pure fd

-- The file of the option -f, or `std` for "-". The name is copied before the descriptor is looked at.
abbrev pub open_named : Text → ℕ → Option ℕ → M ℕ
open_named name std fd =
    if is_dash name then pure std else do in_bounds (ltb (length name) path_max); opened fd

module _ (z : Zlib) (os : Os) where
  abbrev stdin_text : Text
  stdin_text = 115 ∷ 116 ∷ 100 ∷ 105 ∷ 110 ∷ []

  abbrev stdout_text : Text
  stdout_text = 115 ∷ 116 ∷ 100 ∷ 111 ∷ 117 ∷ 116 ∷ []

  abbrev stdin_fileno : ℕ
  stdin_fileno = 0

  abbrev stdout_fileno : ℕ
  stdout_fileno = 1

  abbrev open_device : Text → HwAddr → ℕ → Text → Boolean → M Device
  open_device name addr std std_name force =
      if is_dash name
      then traced (eob_device_open_fd z addr std std_name (is_b_true force))
      else traced (eob_device_open_file z addr name os.open_device (is_b_true force))

  -- The bytes that were read and the NUL behind them, in memory of `size` bytes.
  abbrev read_text : ℕ → Option (List ℕ) → M Text
  read_text size none = set_io_err
  read_text size (some bs) = do
    in_bounds (ltb (length (take size bs)) size)
    pure (take (strlen (take size bs)) bs)

  abbrev none_if : Bool → Option (List ℕ) → Option (List ℕ)
  none_if true o = none
  none_if false o = o

  unfoldable pub iface_send : Text → Text → Boolean → ℕ → ℕ → ℕ → M Ran
  iface_send filename devicename force src_node_id dst_node_id nodes_count = do
    let addr_src = eob_hw_addr_init_default src_node_id nodes_count
    let addr_dst = eob_hw_addr_init_default dst_node_id nodes_count
    open_named filename stdin_fileno os.open_file
    dev ← open_device devicename addr_src stdout_fileno stdout_text force
    size ← one_shl addr_src.virt_blk_shift
    there ← calloc
    str ← read_text size (none_if (not there) os.read_input)
    succeeds (eob_device_send_str z dev str addr_dst.node_id)

  -- `write` to the file; its count is what the command returns.
  abbrev written_count : Option ℕ → Text → M Ran
  written_count none str = die
  written_count (some n) str = do
    verify (ltb 0 n)
    pure (record { rv = n; output = some (record { sender = none; text = str }); dump = none })

  -- Only what is printed to the standard output depends on the option -v.
  abbrev sender_if : Boolean → HwAddr → Option ℕ
  sender_if b_true src = some src.node_id
  sender_if b_false src = none

  -- A NULL is printed as "(null)".
  abbrev printed : Option Text → Text
  printed none = 40 ∷ 110 ∷ 117 ∷ 108 ∷ 108 ∷ 41 ∷ []
  printed (some str) = str

  abbrev to_file : Option Text → M Ran
  to_file none = undefined
  to_file (some str) = written_count os.write_output str

  abbrev pub put_text : Boolean → ℕ → Option Text × HwAddr → M Ran
  put_text verbose fd (str, src) =
      if fd == stdout_fileno
      then pure (record {
        rv = 0;
        output = some (record { sender = sender_if verbose src; text = printed str });
        dump = none;
      })
      else to_file str

  -- The codes are not negative, so that the test of the code lets them pass and the string, which is
  -- not set, is used.
  abbrev pub received_text : Option (Option Text × HwAddr) → M (Option Text × HwAddr)
  received_text none = undefined
  received_text (some r) = pure r

  unfoldable pub iface_recv : Boolean → Text → Text → Boolean → ℕ → ℕ → M Ran
  iface_recv verbose filename devicename force src_node_id nodes_count = do
    let addr_src = eob_hw_addr_init_default src_node_id nodes_count
    fd ← open_named filename stdout_fileno os.open_file
    dev ← open_device devicename addr_src stdin_fileno stdin_text force
    r ← caught (eob_device_recv_str z dev)
    received ← received_text r
    put_text verbose fd received

  unfoldable pub iface_hdr_dump : M Ran
  iface_hdr_dump = do
    fd ← opened os.open_device
    d ← traced (eob_hdr_dump z fd)
    pure (record { rv = 0; output = none; dump = some d })

  -- `inet_aton` never gives a negative number; where it fails the address is not set.
  abbrev address : Option ℕ → M ℕ
  address none = undefined
  address (some a) = pure a

  unfoldable pub iface_hdr_add : ℕ → Boolean → M Ran
  iface_hdr_add node_id force = do
    fd ← opened os.open_device
    addr ← address os.inet_aton
    let phys : NodeData = record { ip_addr = addr; flags = 1 }
    succeeds (traced (eob_hdr_add_device z fd node_id phys (is_b_true force)))

  unfoldable pub iface_hdr_rem : ℕ → M Ran
  iface_hdr_rem node_id = do
    fd ← opened os.open_device
    succeeds (traced (eob_hdr_rem_device z fd node_id))

  unfoldable pub iface_hdr_deinit : M Ran
  iface_hdr_deinit = do fd ← opened os.open_device; succeeds (traced (eob_hdr_deinit z))

  unfoldable pub iface_hdr_init : ℕ → ℕ → ℕ → M Ran
  iface_hdr_init nodes_count virt_blk_size phys_blk_size = do
    fd ← opened os.open_device
    succeeds (traced (eob_hdr_init z fd nodes_count virt_blk_size phys_blk_size))
