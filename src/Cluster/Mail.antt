-- ===== src/Cluster/Mail.antt =====
-- A message stays until the next one to the same node.
use eoblock.Admin.Registry.{IsRegistry}
use eoblock.Chksum.{Zlib}
use eoblock.Cluster.{Action, requests, sends, receives, handed, perform, perform_all}
use eoblock.Cluster.Spec.{View, letter, steps, AllValid}
use eoblock.Cluster.Mirror.{IsCluster, HasRoom}
use eoblock.Cluster.Refines.{perform_all-Refines}
use eoblock.Device.{Device, HwAddr}
use eoblock.HeaderIo.Laws.{seen}
use eoblock.System.{ok, calm}
use eoblock.Prelude.{ℕ, ◌<◌, ◌≡◌, refl, ap, ◌∙◌, arith, List, [], ◌∷◌, length, false, ◌==◌, eq→==}

-- No message to the node.
abbrev pub NoneTo : ℕ → List Action → Type 0
NoneTo b [] = Unit
NoneTo b (requests r ∷ more) = NoneTo b more
NoneTo b (sends a dat i ∷ more) = ((b == i) ≡ false) × NoneTo b more
NoneTo b (receives i ∷ more) = NoneTo b more

-- The mailbox stays through actions that send no message to the node.
steps-boxes :
    (capacity : ℕ) (addr : ℕ → HwAddr) (b : ℕ) (actions : List Action) (s : View)
    → NoneTo b actions
    → (steps capacity addr actions s).1.boxes b ≡ s.boxes b
unfolding steps
steps-boxes capacity addr b [] s none = refl
steps-boxes capacity addr b (requests r ∷ more) s none = steps-boxes capacity addr b more _ none
steps-boxes capacity addr b (sends a dat i ∷ more) s (other, none) =
    steps-boxes capacity addr b more _ none ∙ rw other refl
steps-boxes capacity addr b (receives i ∷ more) s none = steps-boxes capacity addr b more s none

pub steps-letter :
    (capacity : ℕ) (addr : ℕ → HwAddr) (a b : ℕ) (dat : List ℕ) (between : List Action) (s : View)
    → NoneTo b between
    → (steps capacity addr (sends a dat b ∷ between) s).1.boxes b ≡ letter (addr a) dat
unfolding steps
steps-letter capacity addr a b dat between s none =
    steps-boxes capacity addr b between _ none ∙ rw (eq→== b b refl) refl

pub letter-cons :
    (src : HwAddr) (dat : List ℕ)
    → 0 < length dat
    → letter src dat ≡ ok (record { dat = dat; src = src })
letter-cons src [] pos = absurd (omega arith)
letter-cons src (x ∷ xs) pos = refl

module _ (z : Zlib) {nodes : ℕ → Device} {count k pieces size : ℕ}
    (c : IsCluster nodes count k pieces size) {d : List ℕ} (reg : IsRegistry z d)
    (sector : (seen d).h.phys_blk_size ≡ 512) (room : HasRoom z c d) (fd : ℕ)
    (opened : 0 < fd) where
  -- A node receives the last message that was sent to it, with the address of its sender, whatever
  -- else happened in between: requests of administrators, messages to other nodes, and nodes that
  -- receive, itself among them. The message has at least one byte. The device is calm, with a good
  -- header for at most 32 nodes, physical blocks of 512 bytes and the blocks of the nodes; the open
  -- devices agree on the sizes and are at most 256, messages fit the packet, the data of added nodes
  -- fit their fields, a place that is removed is below 32, and the descriptor is not 0.
  pub perform-mail :
      (a b : ℕ) (dat : List ℕ) (between : List Action)
      → 0 < length dat
      → AllValid count size (sends a dat b ∷ between)
      → NoneTo b between
      → (perform z fd nodes
          (receives b)
          (perform_all z fd nodes (sends a dat b ∷ between) (calm d)).1).0
        ≡ handed (ok (record { dat = dat; src = (nodes a).addr }))
  perform-mail a b dat between pos ((from, to, fits, plain), valid) none =
      let r =
        perform_all-Refines z c reg sector room fd opened (sends a dat b ∷ between)
          ((from, to, fits, plain), valid) in
      ap (λ w. (perform z fd nodes (receives b) w).0) r.calm_again
      ∙ ap handed (
          r.after.mail b to
          ∙ steps-letter (seen d).h.nodes_count (λ i. (nodes i).addr) a b dat between _ none
          ∙ letter-cons (nodes a).addr dat pos)
