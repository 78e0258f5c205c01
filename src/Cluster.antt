-- ===== src/Cluster.antt =====
-- lib/liboblock.c as a whole: administrators' programs and the messages of open devices, one after
-- the other on the device that all share.
pub mod Spec
pub mod Mirror
pub mod Sending
pub mod Steps
pub mod Refines
pub mod Mail
pub mod Cells
pub mod Schedule
pub mod Overlap
use eoblock.Prelude.{ℕ, List, [], ◌∷◌}
use eoblock.System.{World, Outcome}
use eoblock.Chksum.{Zlib}
use eoblock.Device.{Device}
use eoblock.Admin.Requests.{Request, serve}
use eoblock.Message.{Received, eob_device_send, eob_device_recv}

-- A request of an administrator, a message from a node to another one, or a node that receives.
pub data Action : Type 0 where
  requests : Request → Action
  sends : ℕ → List ℕ → ℕ → Action
  receives : ℕ → Action

-- How the call ends.
pub data Reply : Type 0 where
  done : Outcome (Unit {0}) → Reply
  handed : Outcome Received → Reply

-- The descriptor of the administrators, and the open device of each node.
module _ (z : Zlib) (fd : ℕ) (nodes : ℕ → Device) where
  abbrev pub perform : Action → World → Reply × World
  perform (requests r) w = let p = serve z fd r w in (done p.0, p.1)
  perform (sends a dat b) w = let p = eob_device_send z (nodes a) dat b w in (done p.0, p.1)
  perform (receives b) w = let p = eob_device_recv z (nodes b) w in (handed p.0, p.1)

  unfoldable pub perform_all : List Action → World → List Reply × World
  perform_all [] w = ([], w)
  perform_all (a ∷ more) w =
      let p = perform a w in let rest = perform_all more p.1 in (p.0 ∷ rest.0, rest.1)
