-- ===== src/Tests/Clusters.antt =====
-- Two nodes and their administrator on one device.
use eoblock.Prelude.{◌≡◌, refl, arith, false, List, [], ◌∷◌, replicate, length, none, some, ◌≤◌}
use eoblock.Admin.{eob_hdr_add_device}
use eoblock.Admin.Init.{eob_hdr_init_establishes}
use eoblock.Admin.Race.{between, Leaves}
use eoblock.Admin.Spec
use eoblock.Admin.Spec.{members, if_present}
use eoblock.Cluster.Overlap.{eob_hdr_add_device-overlap}
use eoblock.Message.{eob_device_recv}
use eoblock.System.Disk.{write_at, length-write_at}
use eoblock.Admin.Requests.{add, remove}
use eoblock.Cluster.{Action, requests, sends, receives, handed, perform, perform_all}
use eoblock.Cluster.Spec.{steps, AllValid}
use eoblock.Cluster.Mirror.{IsCluster, HasRoom}
use eoblock.Cluster.Refines.{view_of, Refines, perform_all-Refines}
use eoblock.Cluster.Mail.{perform-mail}
use eoblock.Cluster.Cells.{place, mailbox}
use eoblock.Cluster.Schedule.{SameAtEach, Alike, perform_all-Alike}
use mathlib.Core.Quot
use eoblock.HeaderIo.Laws.{seen}
use eoblock.System.{Write, apply_writes, ok, calm}
use eoblock.Tests.Samples.{
  sum_zlib, blank_disk, blank_disk-AllBytes, small-IsLayout, small_disk, small_disk-IsRegistry,
  small_disk-sizes, length-small_disk, node_device, node_device-Carries, hello, sample_node,
}

two_nodes-IsCluster : IsCluster node_device 2 9 1 480
two_nodes-IsCluster = record {
  carries = λ i inside. node_device-Carries i;
  number = λ i inside. omega arith;
  bytes = λ i inside. omega arith;
  few = omega arith;
}

small_disk-HasRoom : HasRoom sum_zlib two_nodes-IsCluster small_disk
small_disk-HasRoom i inside = omega (arith, length-small_disk)

-- The administrator adds a node and is refused, node 1 receives, and node 0 sends to itself.
abbrev busy : List Action
busy =
    requests (add 1 sample_node false)
    ∷ requests (add 1 sample_node false)
    ∷ receives 1
    ∷ sends 1 hello 0
    ∷ receives 0
    ∷ requests (remove 1)
    ∷ []

busy-AllValid : AllValid 2 480 busy
busy-AllValid = (
  omega arith,
  (
    omega arith,
    (
      omega arith,
      ((omega arith, omega arith, omega arith, omega arith), (omega arith, (omega arith, tt))),
    ),
  ),
)

perform_all-Refines_example :
    Refines sum_zlib two_nodes-IsCluster
      (seen small_disk).h.nodes_count
      (seen small_disk).h.virt_blk_size
      (perform_all sum_zlib 3 node_device busy (calm small_disk))
      (steps
        (seen small_disk).h.nodes_count
        (λ i. (node_device i).addr)
        busy
        (view_of sum_zlib two_nodes-IsCluster small_disk))
perform_all-Refines_example =
    perform_all-Refines sum_zlib two_nodes-IsCluster small_disk-IsRegistry small_disk-sizes.1
      small_disk-HasRoom 3 (omega arith) busy busy-AllValid

perform-mail_example :
    (perform sum_zlib 3 node_device
      (receives 1)
      (perform_all sum_zlib 3 node_device (sends 0 hello 1 ∷ busy) (calm small_disk)).1).0
    ≡ handed (ok (record { dat = hello; src = (node_device 0).addr }))
perform-mail_example =
    perform-mail sum_zlib two_nodes-IsCluster small_disk-IsRegistry small_disk-sizes.1
      small_disk-HasRoom 3 (omega arith) 0 1 hello busy (omega arith)
      ((omega arith, omega arith, omega arith, omega arith), busy-AllValid) (refl, tt)

-- The same actions in another order: what the mailboxes are used for comes first.
abbrev busy_later : List Action
busy_later =
    receives 1
    ∷ sends 1 hello 0
    ∷ receives 0
    ∷ requests (add 1 sample_node false)
    ∷ requests (add 1 sample_node false)
    ∷ requests (remove 1)
    ∷ []

busy_later-AllValid : AllValid 2 480 busy_later
busy_later-AllValid = (
  omega arith,
  (
    (omega arith, omega arith, omega arith, omega arith),
    (omega arith, (omega arith, (omega arith, (omega arith, tt)))),
  ),
)

busy-SameAtEach : SameAtEach busy busy_later
busy-SameAtEach (place i) = refl
busy-SameAtEach (mailbox b) = refl

perform_all-Alike_example :
    Alike sum_zlib two_nodes-IsCluster busy busy_later
      (perform_all sum_zlib 3 node_device busy (calm small_disk))
      (perform_all sum_zlib 3 node_device busy_later (calm small_disk))
perform_all-Alike_example =
    perform_all-Alike sum_zlib two_nodes-IsCluster small_disk-IsRegistry small_disk-sizes.1
      small_disk-HasRoom 3 (omega arith) busy busy_later busy-AllValid busy_later-AllValid
      (Quot.sound busy-SameAtEach)

-- Another node destroys the header, and sends something to node 1.
abbrev spoilt : Write
spoilt = record { offset = 0; bytes = replicate 512 255 }

abbrev sent : Write
sent = record { offset = 1024; bytes = hello }

first_free : members (seen small_disk) 1 ≡ none
first_free =
    let (done, registry, empty, nodes, virt, phys) =
      eob_hdr_init_establishes sum_zlib small-IsLayout 3 blank_disk (omega arith)
        blank_disk-AllBytes in
    empty 1

two_nodes : (seen small_disk).h.nodes_count ≡ 2
two_nodes =
    let (done, registry, empty, nodes, virt, phys) =
      eob_hdr_init_establishes sum_zlib small-IsLayout 3 blank_disk (omega arith)
        blank_disk-AllBytes in
    nodes

length-spoilt : 1536 ≤ length (apply_writes (spoilt ∷ sent ∷ []) small_disk)
length-spoilt = omega (
  arith,
  length-small_disk,
  length-write_at 0 (replicate 512 255) small_disk (omega arith),
  length-write_at 1024 hello (write_at 0 (replicate 512 255) small_disk) (omega arith),
)

eob_hdr_add_device-overlap_example :
    Leaves
      (eob_hdr_add_device sum_zlib 3 1 sample_node false (between small_disk (spoilt ∷ sent ∷ [])))
      (Spec.update (members (seen small_disk)) 1 (if_present (some sample_node)))
    × ((eob_device_recv sum_zlib
          (node_device 1)
          (eob_hdr_add_device sum_zlib 3 1 sample_node false
            (between small_disk (spoilt ∷ sent ∷ []))).1).0
        ≡ (eob_device_recv sum_zlib
            (node_device 1)
            (calm (apply_writes (spoilt ∷ sent ∷ []) small_disk))).0)
eob_hdr_add_device-overlap_example =
    eob_hdr_add_device-overlap sum_zlib small_disk-IsRegistry small_disk-sizes.1 3 1 (omega arith)
      (spoilt ∷ sent ∷ []) (node_device-Carries 1) (omega arith) sample_node (omega arith)
      (omega (arith, two_nodes)) first_free (omega (arith, length-spoilt))
