-- ===== src/Cluster/Refines.antt =====
-- Any sequence of actions on the shared device.
use eoblock.Admin.Registry.{IsRegistry}
use eoblock.Admin.Spec.{members}
use eoblock.Chksum.{Zlib}
use eoblock.Cluster.{Action, Reply, perform_all}
use eoblock.Cluster.Spec.{View, step, steps, AllValid}
use eoblock.Cluster.Mirror.{IsCluster, HasRoom, Mirrors}
use eoblock.Cluster.Steps.{Simulates-perform}
use eoblock.Device.{Device}
use eoblock.HeaderIo.Laws.{seen}
use eoblock.Message.{eob_device_recv}
use eoblock.System.{World, calm}
use eoblock.Prelude.{ℕ, ◌<◌, ◌≡◌, refl, sym, subst, List, [], ◌∷◌}

module _ (z : Zlib) {nodes : ℕ → Device} {count k pieces size : ℕ}
    (c : IsCluster nodes count k pieces size) where
  -- The replies are those of the specification, and the device stands for its state.
  pub record Refines (capacity virt : ℕ) (r : List Reply × World) (a : List Reply × View)
      : Type 0 where
    pub replies : r.0 ≡ a.0
    pub calm_again : r.1 ≡ calm r.1.disk
    pub after : Mirrors z c capacity virt r.1.disk a.1

  module _ (fd : ℕ) (opened : 0 < fd) {capacity virt : ℕ} where
    perform_all-Mirrors :
        (actions : List Action) {d : List ℕ} {s : View}
        → Mirrors z c capacity virt d s
        → AllValid count size actions
        → Refines capacity virt
            (perform_all z fd nodes actions (calm d))
            (steps capacity (λ i. (nodes i).addr) actions s)
    unfolding perform_all steps
    perform_all-Mirrors [] m tt = record { replies = refl; calm_again = refl; after = m }
    perform_all-Mirrors (a ∷ more) {d} {s} m (valid, vs) =
        let p = Simulates-perform z c fd opened m a valid in
        let rest =
          subst
            (λ w. Refines capacity virt (perform_all z fd nodes more w) (
              steps capacity (λ i. (nodes i).addr) more
                (step capacity (λ i. (nodes i).addr) a s).1))
            (sym p.calm_again) (perform_all-Mirrors more p.after vs) in
        record {
          replies = λ i. p.reply i ∷ rest.replies i;
          calm_again = rest.calm_again;
          after = rest.after;
        }

  -- The members in the header, and what each node would receive.
  abbrev pub view_of : List ℕ → View
  view_of d = record {
    members = members (seen d);
    boxes = λ i. (eob_device_recv z (nodes i) (calm d)).0;
  }

  pub Mirrors-view_of :
      {d : List ℕ} {virt : ℕ}
      → IsRegistry z d
      → (seen d).h.phys_blk_size ≡ 512
      → (seen d).h.virt_blk_size ≡ virt
      → HasRoom z c d
      → Mirrors z c (seen d).h.nodes_count virt d (view_of d)
  Mirrors-view_of reg sector block room = record {
    registry = reg;
    sector = sector;
    places = refl;
    block = block;
    room = room;
    holds = refl;
    mail = λ i inside. refl;
  }

  module _ {d : List ℕ} (reg : IsRegistry z d) (sector : (seen d).h.phys_blk_size ≡ 512)
      (room : HasRoom z c d) (fd : ℕ) (opened : 0 < fd) where
    -- Programs that run one after the other on a calm device with a good header and the blocks of
    -- the nodes, administrators that add and remove nodes, and nodes that send and receive, end
    -- with the replies, and leave the members and the messages, that a membership and a mailbox for
    -- each node give, which holds the last message that was sent to it. Requests may fail. The
    -- physical blocks have 512 bytes, the header is for at most 32 nodes, the open devices agree on
    -- the sizes of the blocks and are at most 256, messages fit the packet, the data of added nodes
    -- fit their fields, a place that is removed is below 32, and the descriptor is not 0.
    pub perform_all-Refines :
        (actions : List Action)
        → AllValid count size actions
        → Refines
            (seen d).h.nodes_count
            (seen d).h.virt_blk_size
            (perform_all z fd nodes actions (calm d))
            (steps (seen d).h.nodes_count (λ i. (nodes i).addr) actions (view_of d))
    perform_all-Refines actions valid =
        perform_all-Mirrors fd opened actions (Mirrors-view_of reg sector refl room) valid
