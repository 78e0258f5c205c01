-- ===== src/Cmd/Messages.antt =====
-- The commands `iface send` and `iface recv`, each of them a program, on one device.
use eoblock.Prelude.{
  ℕ, ◌<◌, ◌≡◌, refl, ap, arith, true, false, ◌⊎◌, inl, inr, none, some, List, [], ◌∷◌, ◌++◌, length,
  take, AllBytes, AllBytes-zeros, lt→ltb, take_all, suc,
}
use eoblock.System.{World, ok, calm, calloc}
use eoblock.Chksum.{Zlib}
use eoblock.Device.{HwAddr, eob_hw_addr_init_default}
use eoblock.Device.Adopt.{HasHeader, eob_device_open_file-adopts}
use eoblock.Message.{strlen}
use eoblock.Message.Delivery.{NoNul}
use eoblock.Message.Session.{IsNode, Agree, with_message, send_str-run}
use eoblock.Cmd.{Text, atoi}
use eoblock.Cmd.Parses.{IsSend, send_name}
use eoblock.Cmd.Iface.{open_named, Os, Ran, is_dash, iface_send}
use eoblock.Cmd.Commands.{iface_do_send, run_command}
use eoblock.Cmd.Main.{exits, find_command, main}

-- Every address that a command makes of its options is one of a node.
pub default-IsNode : (i n : ℕ) → IsNode (eob_hw_addr_init_default i n)
default-IsNode i n = record {
  address = record {
    virt = omega arith;
    phys = omega arith;
    nodes = omega arith;
    order = omega arith;
    sector = omega arith;
  };
  bytes = (omega arith, (omega arith, (omega arith, (omega arith, AllBytes-zeros 12))));
  rest = refl;
}

pub default-Agree :
    (i j n m : ℕ) → Agree (eob_hw_addr_init_default i n) (eob_hw_addr_init_default j m) 480
default-Agree i j n m = record {
  from = default-IsNode i n;
  to = default-IsNode j m;
  virt = refl;
  phys = refl;
  count = 1;
  pos = omega arith;
  pieces = refl;
  sends = refl;
}

strlen_plain : (s : List ℕ) → NoNul s → strlen s ≡ length s
unfolding NoNul
strlen_plain [] h = refl
strlen_plain (x ∷ xs) (h, hs) = rw h (ap suc (strlen_plain xs hs))

-- What the receiver prints.
abbrev pub printing : Text → Ran
printing s = record { rv = 0; output = some (record { sender = none; text = s }); dump = none }

-- The address that the options give.
abbrev pub node_of : Text → Text → HwAddr
node_of id count = eob_hw_addr_init_default (atoi id) (atoi count)

pub two_nodes : (src dst count : Text) → Agree (node_of src count) (node_of dst count) 480
two_nodes src dst count = default-Agree (atoi src) (atoi dst) (atoi count) (atoi count)

-- The file with the text opens: it is "-", or has a name that is short enough and a descriptor.
abbrev pub Readable : Os → Text → Type 0
Readable os file =
    (is_dash file ≡ true)
    ⊎ ((is_dash file ≡ false) × (length file < 4096) × ((n : ℕ) × (os.open_file ≡ some n)))

opens_file :
    (os : Os) (file : Text) (std : ℕ) (w : World)
    → Readable os file
    → (n : ℕ) × (open_named file std os.open_file w ≡ (ok n, w))
opens_file os file std w (inl dash) = (std, rw dash refl)
opens_file os file std w (inr (named, short, (n, there))) =
    (n, rw (named, there) (rw (lt→ltb (length file) 4096 short) refl))

module _ (z : Zlib) (os : Os) (args : List Text) (src dst count file device : Text) (fd : ℕ)
    (s : Text) {d : List ℕ} where
  module _ (a : IsSend args src dst (atoi count) file device) (no_dash : is_dash device ≡ false)
      (readable : Readable os file) (descriptor : os.open_device ≡ some fd) (opened : 0 < fd)
      (nonul : NoNul s) (short : length s < 480) (bytes : AllBytes s)
      (h : HasHeader z (node_of src count) d) where
    abbrev d' : List ℕ
    d' = with_message z (two_nodes src dst count) h device fd fd (s ++ (0 ∷ []))

    pub send_run :
        os.read_input ≡ some s
        → main z os (send_name ∷ args) (calm d) ≡ (ok (exits 0 none), calm d')
    unfolding main find_command run_command iface_do_send iface_send calloc
    send_run input =
        let whole : take 512 s ≡ s = take_all 512 s (omega arith) in
        let (n, read) = opens_file os file 0 (calm d) readable in
        rw (a.parses.settings) (
          rw (a.parses.operands, a.src_is, a.dst_is, a.file_is, a.force_is, a.nodes)
            (rw read (
              rw (no_dash, descriptor, input)
                (rw
                  (eob_device_open_file-adopts z (node_of src count) device fd d
                    (two_nodes src dst count).from.address h opened)
                  (rw (whole, lt→ltb (length s) 512 (omega arith))
                    (rw (strlen_plain s nonul) (
                      rw (take_all (length s) s (omega arith)) (
                        rw
                          (send_str-run z device (two_nodes src dst count) h fd fd opened opened s
                            nonul short bytes)
                          refl))))))))
