-- ===== src/Cluster/Spec.antt =====
-- What the cluster promises: who its members are, and a mailbox for each node that holds the last
-- message sent to it. No bytes, checksums or system calls.
use eoblock.Prelude.{ℕ, ◌≤◌, ◌<◌, List, [], ◌∷◌, length, AllBytes, ◌==◌, if◌then◌else◌}
use eoblock.System.{Outcome, ok, abort}
use eoblock.Device.{HwAddr}
use eoblock.Admin.Spec.{Members}
use eoblock.Admin.Requests
use eoblock.Admin.Requests.{answer, code_of, or_else}
use eoblock.Message.{Received}
use eoblock.Cluster.{Action, requests, sends, receives, Reply, done, handed}

-- What a receive by each node would come to.
abbrev pub Boxes : Type 0
Boxes = ℕ → Outcome Received

pub record View : Type 0 where
  pub members : Members
  pub boxes : Boxes

-- A message without data stops the program that receives it.
abbrev pub letter : HwAddr → List ℕ → Outcome Received
letter src [] = abort
letter src (x ∷ xs) = ok (record { dat = x ∷ xs; src = src })

abbrev pub put : ℕ → Outcome Received → Boxes → Boxes
put i o boxes j = if j == i then o else boxes j

-- Of a cluster with so many places, whose nodes have these addresses.
module _ (capacity : ℕ) (addr : ℕ → HwAddr) where
  abbrev pub step : Action → View → Reply × View
  step (requests r) s =
      let o = answer capacity r s.members in
      (done (code_of o), record { members = or_else o s.members; boxes = s.boxes })
  step (sends a dat b) s =
      (done (ok tt), record { members = s.members; boxes = put b (letter (addr a) dat) s.boxes })
  step (receives b) s = (handed (s.boxes b), s)

  unfoldable pub steps : List Action → View → List Reply × View
  steps [] s = ([], s)
  steps (a ∷ more) s = let p = step a s in let rest = steps more p.1 in (p.0 ∷ rest.0, rest.1)

-- Nodes below `count` send bytes that fit a packet of `size` to each other, and receive.
module _ (count size : ℕ) where
  abbrev pub IsValid : Action → Type 0
  IsValid (requests r) = Requests.IsValid r
  IsValid (sends a dat b) = (a < count) × (b < count) × (length dat ≤ size) × AllBytes dat
  IsValid (receives b) = b < count

  abbrev pub AllValid : List Action → Type 0
  AllValid [] = Unit
  AllValid (a ∷ more) = IsValid a × AllValid more
