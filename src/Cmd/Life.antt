-- ===== src/Cmd/Life.antt =====
-- cmd/iface0/iface.c: `iface init`, and then a sequence of uses of the device.
use eoblock.Admin.{or_default}
use eoblock.Admin.Formatted.{Behind-formatted}
use eoblock.Admin.Init.{IsLayout, formatted, eob_hdr_init_establishes}
use eoblock.Chksum.{Zlib}
use eoblock.Cluster.Mirror.{Mirrors, HasRoom, slot_room, small}
use eoblock.Cluster.Spec.{View}
use eoblock.Message.{eob_device_recv}
use eoblock.Message.Apart.{recv-Behind}
use eoblock.System.{ok, calm}
use eoblock.Cmd.{Text, atoi}
use eoblock.Cmd.Administers.{Opens}
use eoblock.Cmd.Canon.{node_device, node_device-IsCluster}
use eoblock.Cmd.Follows.{Keeps, run_uses-Mirrors}
use eoblock.Cmd.Iface.{Os}
use eoblock.Cmd.Laws.{status_of}
use eoblock.Cmd.Lines.{main-init_line}
use eoblock.Cmd.Parses.{IsInit, init_name}
use eoblock.Cmd.Main.{exits, main}
use eoblock.Cmd.Users.{Use, run_uses, promised, AllValid}
use eoblock.Prelude.{ℕ, ◌≤◌, ◌≡◌, sym, ap, ◌∙◌, subst, arith, none, List, ◌∷◌, length, AllBytes}

-- No members, and the mail that is on the device.
abbrev pub empty_but_mail : Zlib → Text → List ℕ → View
empty_but_mail z count d = record {
  members = λ j. none;
  boxes = λ i. (eob_device_recv z (node_device count i) (calm d)).0;
}

module _ (z : Zlib) (count : Text) (virt phys : ℕ) {n : ℕ} (few : n ≤ 256)
    (g : IsLayout (atoi count) virt phys) (sector : or_default phys 4096 ≡ 512)
    (block : or_default virt 4096 ≡ 512) (os : Os) (args : List Text) (device : Text) (fd : ℕ)
    (asked : IsInit args (atoi count) virt phys device) (o : Opens os fd) (d : List ℕ)
    (bytes : AllBytes d) (size : 512 ≤ length d)
    (room : HasRoom z (node_device-IsCluster count n few) d) where
  Mirrors-formatted :
      Mirrors z
        (node_device-IsCluster count n few)
        (or_default (atoi count) 32)
        512
        (formatted z g d)
        (empty_but_mail z count d)
  Mirrors-formatted =
      let (done, registry, empty, nodes, virt_size, phys_size) =
        eob_hdr_init_establishes z g fd d o.pos bytes in
      let b = Behind-formatted z g sector d size in
      let c = node_device-IsCluster count n few in
      record {
        registry = registry;
        sector = phys_size ∙ sector;
        places = nodes;
        block = virt_size ∙ block;
        room = λ i inside. omega (arith, room i inside, b.size);
        holds = λ i j. empty j i;
        mail = λ i inside.
            recv-Behind z (c.carries i inside) (small z c i inside) (slot_room z c d i inside room)
              b;
      }

  -- A command line of `iface init` that asks for blocks of 512 bytes, on a calm device that holds
  -- bytes, ends with status 0. Any command lines of these four forms after it, whatever the order of
  -- their options and others among them that change nothing, end with the statuses, and print the
  -- texts, that a membership which starts empty and a mailbox for each node give, which holds the last
  -- message sent to it, at first the one that was there; and both are left behind: `iface add`, with or
  -- without -F, `iface remove`, `iface send` without -F of a text that is read from a file or the
  -- standard input, and `iface recv` to the standard output without -F and -v. Runs may fail. The
  -- layout is valid, all messages and `iface init` name the same number of nodes, the device has the
  -- blocks of the header and of the nodes, which are at most 256; it opens in each run with a
  -- descriptor that is not 0, its name is not "-" for messages, addresses are read, a place that is
  -- removed is below 32, files open, and a text that is sent has less than 480 bytes and no NUL among
  -- them.
  pub main-life :
      (us : List Use)
      → AllValid count n us
      → ((main z os (init_name ∷ args) (calm d)).0 ≡ ok (exits 0 none))
        × Keeps z count few
            (or_default (atoi count) 32)
            (run_uses z us (main z os (init_name ∷ args) (calm d)).1)
            (promised (or_default (atoi count) 32) count us (empty_but_mail z count d))
  main-life us valid =
      let (done, registry, empty, nodes, virt_size, phys_size) =
        eob_hdr_init_establishes z g fd d o.pos bytes in
      let run =
        main-init_line z os args device fd (calm d) o.opened (atoi count) virt phys asked
        ∙ ap status_of done in
      (
        ap (λ r. r.0) run,
        subst
            (λ w.
              Keeps z count few (or_default (atoi count) 32) (run_uses z us w)
                (promised (or_default (atoi count) 32) count us (empty_but_mail z count d)))
            (sym (ap (λ r. r.1) run)) (run_uses-Mirrors z count few us Mirrors-formatted valid),
      )
