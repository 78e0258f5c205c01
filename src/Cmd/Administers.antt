-- ===== src/Cmd/Administers.antt =====
-- cmd/iface0/iface.c: `iface init`, and then any sequence of `iface add` and `iface remove`, each of
-- them a run of the program.
use eoblock.Prelude.{
  ℕ, ◌^◌, ◌<◌, ◌≡◌, refl, sym, ap, ◌∙◌, subst, arith, Option, none, some, List, [], ◌∷◌, AllBytes,
}
use eoblock.System.{World, Outcome, ok, calm}
use eoblock.Chksum.{Zlib}
use eoblock.HeaderIo.Laws.{seen}
use eoblock.Admin.{or_default}
use eoblock.Admin.Init.{IsLayout, eob_hdr_init_establishes}
use eoblock.Admin.Registry.{IsRegistry}
use eoblock.Admin.Requests
use eoblock.Admin.Requests.{
  Request, add, remove, answer, code_of, or_else, serve, Served, serve-Served,
}
use eoblock.Admin.Spec.{Members, members}
use eoblock.Cmd.{Text, atoi}
use eoblock.Cmd.Iface.{Os}
use eoblock.Cmd.Laws.{status_of}
use eoblock.Cmd.Main.{stderr, Status, exits, main}
use eoblock.Cmd.Lines.{
  Line, adds, removes, run_line, run_lines, main-add_line, main-remove_line, main-init_line,
}
use eoblock.Cmd.Parses.{IsAdd, IsRemove, IsInit, init_name}

-- The number that an address is read as, where it is.
abbrev address_of : Option ℕ → ℕ
address_of none = 0
address_of (some a) = a

-- What a line asks for.
abbrev pub request_of : Line → Request
request_of (adds os args force id device) =
    add (atoi id) (record { flags = 1; ip_addr = address_of os.inet_aton }) force
request_of (removes os args id device) = remove (atoi id)

-- A run in which the device opens, with a descriptor that is not 0.
pub record Opens (os : Os) (fd : ℕ) : Type 0 where
  pub opened : os.open_device ≡ some fd
  pub pos : 0 < fd

-- The arguments ask for what the line is to ask for, the device opens, the address is read, and a
-- place that is removed is in the table.
abbrev pub IsValid : Line → Type 0
IsValid (adds os args force id device) =
    IsAdd args force id device
    × (fd : ℕ) × Opens os fd
    × ((addr : ℕ) × (os.inet_aton ≡ some addr) × (addr < 2 ^ 32))
IsValid (removes os args id device) =
    IsRemove args id device × (fd : ℕ) × Opens os fd × (atoi id < 32)

abbrev pub AllValid : List Line → Type 0
AllValid [] = Unit
AllValid (l ∷ ls) = IsValid l × AllValid ls

-- A run ends with status 0, or with status 1 and a message.
abbrev pub status_for : Option Members → Outcome Status
status_for none = ok (exits 1 (some stderr))
status_for (some m) = ok (exits 0 none)

-- What the lines are to end with, and the members behind them.
unfoldable pub replies : ℕ → List Line → Members → List (Outcome Status) × Members
replies capacity [] m = ([], m)
replies capacity (l ∷ ls) m =
    let o = answer capacity (request_of l) m in
    let rest = replies capacity ls (or_else o m) in (status_for o ∷ rest.0, rest.1)

module _ (z : Zlib) where
  -- Lines end as they are to, and leave a good device with the members.
  pub record Administers (r : List (Outcome Status) × World) (a : List (Outcome Status) × Members)
      : Type 0 where
    pub statuses : r.0 ≡ a.0
    pub calm_again : r.1 ≡ calm r.1.disk
    pub registry : IsRegistry z r.1.disk
    pub holds : members (seen r.1.disk) ≡ a.1

  -- One line.
  record Ran (d : List ℕ) (r : Outcome Status × World) (o : Option Members) : Type 0 where
    status : r.0 ≡ status_for o
    calm_again : r.1 ≡ calm r.1.disk
    registry : IsRegistry z r.1.disk
    holds : members (seen r.1.disk) ≡ or_else o (members (seen d))
    capacity : (seen r.1.disk).h.nodes_count ≡ (seen d).h.nodes_count

  pub ended :
      (r : Outcome (Unit {0})) (w : World) (o : Option Members)
      → r ≡ code_of o
      → status_of (r, w) ≡ (status_for o, w)
  ended r w none e = ap (λ c. status_of (c, w)) e
  ended r w (some m) e = ap (λ c. status_of (c, w)) e

  Ran-Served :
      (fd : ℕ) {d : List ℕ} (r : Outcome (Unit {0}) × World) (o : Option Members)
      → Served z fd d r o
      → Ran d (status_of r) o
  Ran-Served fd {d} (c, w) o s =
      subst (λ p. Ran d p o) (sym (ended c w o s.code))
        (record {
          status = refl;
          calm_again = s.calm_again;
          registry = s.registry;
          holds = s.holds;
          capacity = s.capacity;
        })

  -- A line is a request of the library, made on the descriptor that the device opens with.
  pub record Asks (l : Line) (w : World) : Type 0 where
    pub fd : ℕ
    pub pos : 0 < fd
    pub asked : run_line z l w ≡ status_of (serve z fd (request_of l) w)
    pub valid : Requests.IsValid (request_of l)

  pub line-Asks : (l : Line) (w : World) → IsValid l → Asks l w
  line-Asks (adds os args force id device) w (a, fd, o, (addr, read, small)) = record {
    fd = fd;
    pos = o.pos;
    asked = rw (main-add_line z os args device fd w o.opened force id addr a read) (rw read refl);
    valid = rw read (omega arith);
  }
  line-Asks (removes os args id device) w (a, fd, o, small) = record {
    fd = fd;
    pos = o.pos;
    asked = main-remove_line z os args device fd w o.opened id a;
    valid = small;
  }

  run_line-Ran :
      {d : List ℕ} (reg : IsRegistry z d) (l : Line)
      → IsValid l
      → Ran d
          (run_line z l (calm d))
          (answer (seen d).h.nodes_count (request_of l) (members (seen d)))
  run_line-Ran {d} reg l v =
      let a = line-Asks l (calm d) v in
      rw (a.asked) (Ran-Served a.fd _ _ (serve-Served z a.fd a.pos reg (request_of l) a.valid))

  moved :
      (ls : List Line) {v w : World} {c c' : ℕ} {m m' : Members}
      → v ≡ w
      → c ≡ c'
      → m ≡ m'
      → Administers (run_lines z ls v) (replies c ls m)
      → Administers (run_lines z ls w) (replies c' ls m')
  moved ls {v} {w} {c} {c'} {m} {m'} same size members h =
      subst (λ x. Administers (run_lines z ls x) (replies c' ls m')) same
        (subst (λ x. Administers (run_lines z ls v) (replies x ls m')) size
          (subst (λ x. Administers (run_lines z ls v) (replies c ls x)) members h))

  run_lines-Administers :
      (ls : List Line) {d : List ℕ}
      → IsRegistry z d
      → AllValid ls
      → Administers (run_lines z ls (calm d)) (replies (seen d).h.nodes_count ls (members (seen d)))
  unfolding run_lines replies
  run_lines-Administers [] reg tt = record {
    statuses = refl;
    calm_again = refl;
    registry = reg;
    holds = refl;
  }
  run_lines-Administers (l ∷ ls) {d} reg (valid, vs) =
      let s = run_line-Ran reg l valid in
      let rest =
        moved ls (sym s.calm_again) s.capacity s.holds (run_lines-Administers ls s.registry vs) in
      record {
        statuses = λ i. s.status i ∷ rest.statuses i;
        calm_again = rest.calm_again;
        registry = rest.registry;
        holds = rest.holds;
      }

  -- A command line of `iface init`, with its options in any order and those that are missing as 0,
  -- on a calm device that holds bytes ends with status 0 where the layout that it asks for is valid.
  -- Any command lines of `iface add`, with or without -F, and `iface remove` after it, whatever their
  -- options look like that give the node, the address and the device, end with the statuses, and
  -- leave the members, that a membership answers which starts empty. A line may fail, with status 1
  -- and a message. In each run the device opens with a descriptor that is not 0 and the address is
  -- read, and a place that is removed is below 32.
  pub main-administers :
      (os : Os) (args : List Text) (device : Text) (count virt phys fd : ℕ) (d : List ℕ)
      (ls : List Line)
      → IsInit args count virt phys device
      → Opens os fd
      → IsLayout count virt phys
      → AllBytes d
      → AllValid ls
      → ((main z os (init_name ∷ args) (calm d)).0 ≡ ok (exits 0 none))
        × Administers
            (run_lines z ls (main z os (init_name ∷ args) (calm d)).1)
            (replies (or_default count 32) ls (λ j. none))
  main-administers os args device count virt phys fd d ls a o g bytes valid =
      let (done, registry, empty, nodes, virt_size, phys_size) =
        eob_hdr_init_establishes z g fd d o.pos bytes in
      let run =
        main-init_line z os args device fd (calm d) o.opened count virt phys a
        ∙ ap status_of done in
      (
        ap (λ r. r.0) run,
        moved ls (sym (ap (λ r. r.1) run)) nodes (λ i j. empty j i)
            (run_lines-Administers ls registry valid),
      )
