-- ===== src/Cmd/Lines.antt =====
-- cmd/iface0/iface.c: an administrator at the command line. Each line is a run of the program, with
-- what the calls on other files return in that run.
use eoblock.Prelude.{ℕ, ◌≡◌, Bool, some, List, [], ◌∷◌}
use eoblock.System.{World, Outcome}
use eoblock.Chksum.{Zlib}
use eoblock.Admin.{eob_hdr_add_device, eob_hdr_rem_device, eob_hdr_init}
use eoblock.Cmd.{Text, atoi}
use eoblock.Cmd.Commands.{iface_do_add, iface_do_remove, iface_do_init, run_command}
use eoblock.Cmd.Iface.{Os, iface_hdr_add, iface_hdr_rem, iface_hdr_init}
use eoblock.Cmd.Laws.{status_of, reported-traced}
use eoblock.Cmd.Main.{Status, find_command, main}
use eoblock.Cmd.Parses.{IsAdd, IsRemove, IsInit, add_name, remove_name, init_name}

-- `iface add` and `iface remove` with these arguments, and what they are to ask for: whether by force,
-- the node and the device.
pub data Line : Type 0 where
  adds : Os → List Text → Bool → Text → Text → Line
  removes : Os → List Text → Text → Text → Line

module _ (z : Zlib) where
  abbrev pub run_line : Line → World → Outcome Status × World
  run_line (adds os args force id device) = main z os (add_name ∷ args)
  run_line (removes os args id device) = main z os (remove_name ∷ args)

  unfoldable pub run_lines : List Line → World → List (Outcome Status) × World
  run_lines [] w = ([], w)
  run_lines (l ∷ ls) w =
      let p = run_line l w in let rest = run_lines ls p.1 in (p.0 ∷ rest.0, rest.1)

  module _ (os : Os) (args : List Text) (device : Text) (fd : ℕ) (w : World)
      (opened : os.open_device ≡ some fd) where
    pub main-add_line :
        (force : Bool) (id : Text) (addr : ℕ)
        → IsAdd args force id device
        → os.inet_aton ≡ some addr
        → main z os (add_name ∷ args) w
          ≡ status_of
              (eob_hdr_add_device z fd (atoi id) (record { flags = 1; ip_addr = addr }) force w)
    unfolding main find_command run_command iface_do_add iface_hdr_add
    main-add_line force id addr a read = rw (a.parses.settings) (
        rw (a.ip, a.node_id, a.parses.operands)
          (rw (opened, read, a.force_is)
            (reported-traced
              (eob_hdr_add_device z fd (atoi id) (record { flags = 1; ip_addr = addr }) force) w)))

    pub main-remove_line :
        (id : Text)
        → IsRemove args id device
        → main z os (remove_name ∷ args) w ≡ status_of (eob_hdr_rem_device z fd (atoi id) w)
    unfolding main find_command run_command iface_do_remove iface_hdr_rem
    main-remove_line id a = rw (a.parses.settings) (
        rw (a.node_id, a.parses.operands)
          (rw opened (reported-traced (eob_hdr_rem_device z fd (atoi id)) w)))

    pub main-init_line :
        (count virt phys : ℕ)
        → IsInit args count virt phys device
        → main z os (init_name ∷ args) w ≡ status_of (eob_hdr_init z fd count virt phys w)
    unfolding main find_command run_command iface_do_init iface_hdr_init
    main-init_line count virt phys a = rw (a.parses.settings) (
        rw (a.parses.operands) (
          rw (opened, a.nodes, a.virt_is, a.phys_is)
            (reported-traced (eob_hdr_init z fd count virt phys) w)))
