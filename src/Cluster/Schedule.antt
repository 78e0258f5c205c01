-- ===== src/Cluster/Schedule.antt =====
-- The order of actions on different parts of the cluster: programs that do not concern the same place
-- or the same mailbox can run in any order.
use eoblock.Admin.Registry.{IsRegistry}
use eoblock.Admin.Spec.{members}
use eoblock.Chksum.{Zlib}
use eoblock.Cluster.{Action, Reply, perform_all}
use eoblock.Cluster.Cells.{
  Cell, place, mailbox, Content, datum, mail, content, only, heard, acts, steps-acts,
}
use eoblock.Cluster.Mirror.{IsCluster, HasRoom}
use eoblock.Cluster.Refines.{view_of, perform_all-Refines}
use eoblock.Cluster.Spec.{View, steps, AllValid}
use eoblock.Device.{Device, HwAddr}
use eoblock.Header.{NodeData}
use eoblock.HeaderIo.Laws.{seen}
use eoblock.Message.{Received, eob_device_recv}
use eoblock.System.{World, Outcome, abort, calm}
use eoblock.Prelude.{ℕ, ◌<◌, ◌≡◌, sym, ap, ◌∙◌, Option, none, List}
use mathlib.Core.Quot
use mathlib.Core.Quot.{Quot}

-- The same actions at each cell, in the same order.
abbrev pub SameAtEach : List Action → List Action → Type 0
SameAtEach xs ys = (c : Cell) → only c xs ≡ only c ys

-- Actions, up to the order of those that are about different cells.
abbrev pub Schedule : Type 0
Schedule = Quot SameAtEach

abbrev pub schedule : List Action → Schedule
schedule = Quot.mk

abbrev datum_of : Content → Option NodeData
datum_of (datum v) = v
datum_of (mail o) = none

abbrev mail_of : Content → Outcome Received
mail_of (datum v) = abort
mail_of (mail o) = o

-- What a schedule brings each cell to.
module _ (capacity : ℕ) (addr : ℕ → HwAddr) (s : View) where
  abbrev brings_to : Schedule → Cell → List Reply × Content
  brings_to =
      Quot.lift (hlevel) (λ actions c. acts capacity addr (only c actions) (content c s))
        (λ xs ys h i c. acts capacity addr (h c i) (content c s))

  -- What the steps bring it to.
  abbrev reached : List Action → Cell → List Reply × Content
  reached xs c = (heard c xs (steps capacity addr xs s).0, content c (steps capacity addr xs s).1)

  reached-schedule :
      (xs ys : List Action) (c : Cell) → schedule xs ≡ schedule ys → reached xs c ≡ reached ys c
  reached-schedule xs ys c e =
      steps-acts capacity addr c xs s
      ∙ ap (λ q. brings_to q c) e
      ∙ sym (steps-acts capacity addr c ys s)

-- Two runs that cannot be told apart: by the replies at each cell, the members and the mail.
module _ (z : Zlib) {nodes : ℕ → Device} {count k pieces size : ℕ}
    (c : IsCluster nodes count k pieces size) where
  pub record Alike (xs ys : List Action) (r r' : List Reply × World) : Type 0 where
    pub replies : (x : Cell) → heard x xs r.0 ≡ heard x ys r'.0
    pub members_alike : (i : ℕ) → members (seen r.1.disk) i ≡ members (seen r'.1.disk) i
    pub mail_alike :
        (b : ℕ)
        → b < count
        → (eob_device_recv z (nodes b) r.1).0 ≡ (eob_device_recv z (nodes b) r'.1).0

  module _ {d : List ℕ} (reg : IsRegistry z d) (sector : (seen d).h.phys_blk_size ≡ 512)
      (room : HasRoom z c d) (fd : ℕ) (opened : 0 < fd) where
    -- Two sequences of calls on a device, requests of administrators, sends and receives, that are
    -- equal as schedules, because at each place of the table and at each mailbox the same calls come
    -- in the same order, cannot be told apart, however the calls on different places and mailboxes
    -- are ordered: the replies at each place and mailbox are the same, and afterwards so are the
    -- members and what each node would receive. The device is calm, with a good header for at most
    -- 32 nodes, physical blocks of 512 bytes and the blocks of the nodes; the open devices agree on
    -- the sizes and are at most 256, messages fit the packet, the data of added nodes fit their
    -- fields, a place that is removed is below 32, and the descriptor is not 0.
    pub perform_all-Alike :
        (xs ys : List Action)
        → AllValid count size xs
        → AllValid count size ys
        → schedule xs ≡ schedule ys
        → Alike xs ys (perform_all z fd nodes xs (calm d)) (perform_all z fd nodes ys (calm d))
    perform_all-Alike xs ys valid valid' e =
        let r = perform_all-Refines z c reg sector room fd opened xs valid in
        let r' = perform_all-Refines z c reg sector room fd opened ys valid' in
        let same = λ (x : Cell).
          reached-schedule (seen d).h.nodes_count (λ i. (nodes i).addr) (view_of z c d) xs ys x e in
        record {
          replies = λ x.
              ap (heard x xs) r.replies ∙ ap (λ p. p.0) (same x) ∙ sym (ap (heard x ys) r'.replies);
          members_alike = λ i.
              ap (λ m. m i) r.after.holds
              ∙ ap (λ p. datum_of p.1) (same (place i))
              ∙ sym (ap (λ m. m i) r'.after.holds);
          mail_alike = λ b inside.
              ap (λ w. (eob_device_recv z (nodes b) w).0) r.calm_again
              ∙ r.after.mail b inside
              ∙ ap (λ p. mail_of p.1) (same (mailbox b))
              ∙ sym (r'.after.mail b inside)
              ∙ sym (ap (λ w. (eob_device_recv z (nodes b) w).0) r'.calm_again);
        }
