-- ===== src/Cmd/Users.antt =====
-- cmd/iface0/iface.c: users of one device at the command line. Each use is a run of the program, with
-- what the calls on other files return in that run.
use eoblock.Prelude.{ℕ, ◌<◌, ◌≡◌, false, Option, none, some, List, [], ◌∷◌, ◌++◌, length, AllBytes}
use eoblock.System.{World, Outcome, ok, err, abort, fault}
use eoblock.Chksum.{Zlib}
use eoblock.Cluster.{Action, requests, sends, receives, Reply, done, handed}
use eoblock.Cluster.Spec.{View, steps}
use eoblock.Message.Delivery.{NoNul}
use eoblock.Cmd.{Text, atoi}
use eoblock.Cmd.Administers
use eoblock.Cmd.Administers.{Opens, request_of}
use eoblock.Cmd.Canon.{node_device}
use eoblock.Cmd.Commands.{help_recv, run_command}
use eoblock.Cmd.Iface.{Os, Ran, is_dash}
use eoblock.Cmd.Lines.{Line, run_line}
use eoblock.Cmd.Mailing.{text_of, printed_as, ended_as}
use eoblock.Cmd.Main.{exits, stderr, Status, main}
use eoblock.Cmd.Messages.{Readable}
use eoblock.Cmd.Parses.{IsSend, IsRecv, send_name, recv_name}

-- `iface add` and `iface remove`, `iface send` with these arguments, which are to ask for a text that
-- is read to be sent from one node to another, and `iface recv`, which are to ask for the mail of a
-- node.
pub data Use : Type 0 where
  administers : Line → Use
  posts : Os → List Text → Text → Text → Text → Text → Use
  fetches : Os → List Text → Text → Text → Use

-- How the program ends, and for `iface recv` what the command came to.
abbrev pub Shown : Type 0
Shown = Outcome Status × Option (Outcome Ran)

module _ (z : Zlib) where
  abbrev pub run_use : Use → World → Shown × World
  run_use (administers l) w = let p = run_line z l w in ((p.0, none), p.1)
  run_use (posts os args src dst s device) w =
      let p = main z os (send_name ∷ args) w in ((p.0, none), p.1)
  run_use (fetches os args node device) w =
      let p = main z os (recv_name ∷ args) w in
      ((p.0, some (run_command z os help_recv (recv_name ∷ args) w).0), p.1)

  unfoldable pub run_uses : List Use → World → List Shown × World
  run_uses [] w = ([], w)
  run_uses (u ∷ us) w = let p = run_use u w in let rest = run_uses us p.1 in (p.0 ∷ rest.0, rest.1)

-- What a use asks of the cluster: a text is sent with its NUL.
abbrev pub action_of : Use → Action
action_of (administers l) = requests (request_of l)
action_of (posts os args src dst s device) = sends (atoi src) (s ++ (0 ∷ [])) (atoi dst)
action_of (fetches os args node device) = receives (atoi node)

-- What the user sees of a reply.
abbrev pub shows : Reply → Shown
shows (done (ok u)) = (ok (exits 0 none), none)
shows (done (err e)) = (ok (exits 1 (some stderr)), none)
shows (done abort) = (abort, none)
shows (done fault) = (fault, none)
shows (handed o) = (ended_as (text_of o), some (printed_as (text_of o)))

abbrev pub actions_of : List Use → List Action
actions_of [] = []
actions_of (u ∷ us) = action_of u ∷ actions_of us

abbrev pub shown_all : List Reply → List Shown
shown_all [] = []
shown_all (r ∷ rs) = shows r ∷ shown_all rs

-- What the uses are to show, and what they leave, in a cluster of so many places.
abbrev pub promised : ℕ → Text → List Use → View → List Shown × View
promised capacity count us s =
    let p = steps capacity (λ i. (node_device count i).addr) (actions_of us) s in
    (shown_all p.0, p.1)

-- A text that the program reads from its standard input, without a NUL.
pub record Reads (os : Os) (s : Text) : Type 0 where
  pub input : os.read_input ≡ some s
  pub nonul : NoNul s
  pub short : length s < 480
  pub bytes : AllBytes s

-- The arguments ask for what the use is to ask for, all with the same number of nodes in -c, the
-- device opens, its name is not "-", and the nodes are below `n`.
abbrev pub IsValid : Text → ℕ → Use → Type 0
IsValid count n (administers l) = Administers.IsValid l
IsValid count n (posts os args src dst s device) =
    (file : Text) × IsSend args src dst (atoi count) file device
    × Readable os file
    × (fd : ℕ) × Opens os fd
    × (is_dash device ≡ false)
    × Reads os s
    × (atoi src < n)
    × (atoi dst < n)
IsValid count n (fetches os args node device) =
    IsRecv args node (atoi count) device
    × (fd : ℕ) × Opens os fd
    × (is_dash device ≡ false)
    × (atoi node < n)

abbrev pub AllValid : Text → ℕ → List Use → Type 0
AllValid count n [] = Unit
AllValid count n (u ∷ us) = IsValid count n u × AllValid count n us
