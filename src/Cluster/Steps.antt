-- ===== src/Cluster/Steps.antt =====
-- Each action on the shared device does what the specification of the cluster says.
use eoblock.Admin.Behind.{Behind-serve}
use eoblock.Admin.Requests
use eoblock.Admin.Requests.{Request, serve, answer, or_else, Served, serve-Served}
use eoblock.Chksum.{Zlib}
use eoblock.Cluster.{Action, requests, sends, receives, done, handed, perform}
use eoblock.Cluster.Spec.{View, step, IsValid}
use eoblock.Device.{Device}
use eoblock.HeaderIo.Laws.{seen}
use eoblock.Message.{eob_device_recv}
use eoblock.Message.Apart.{recv-Behind}
use eoblock.Message.Calm.{eob_device_recv-calm}
use eoblock.System.{calm}
use eoblock.Prelude.{ℕ, ◌<◌, refl, sym, ap, ◌∙◌, subst, List}
use eoblock.Cluster.Mirror.{IsCluster, Mirrors, Simulates, addr_of, slot_room, small}
use eoblock.Cluster.Sending.{Simulates-send}

module _ (z : Zlib) {nodes : ℕ → Device} {count k pieces size : ℕ}
    (c : IsCluster nodes count k pieces size) (fd : ℕ) (opened : 0 < fd) {capacity virt : ℕ}
    {d : List ℕ} {s : View} (m : Mirrors z c capacity virt d s) where
  pub request-Served :
      (r : Request)
      → Requests.IsValid r
      → Served z fd d (serve z fd r (calm d)) (answer capacity r s.members)
  request-Served r valid =
      subst (λ n. Served z fd d (serve z fd r (calm d)) (answer n r s.members)) m.places
        (subst (λ x. Served z fd d (serve z fd r (calm d)) (answer (seen d).h.nodes_count r x))
          m.holds (serve-Served z fd opened m.registry r valid))

  Simulates-request :
      (r : Request)
      → Requests.IsValid r
      → Simulates z c capacity virt
          (perform z fd nodes (requests r) (calm d))
          (step capacity (addr_of z c) (requests r) s)
  Simulates-request r valid =
      let q = request-Served r valid in
      let b = Behind-serve z m.registry m.sector fd opened r valid in
      record {
        reply = ap done q.code;
        calm_again = q.calm_again;
        after = record {
          registry = q.registry;
          sector = q.sector ∙ m.sector;
          places = q.capacity ∙ m.places;
          block = q.virt ∙ m.block;
          room = λ i inside. rw b.size (m.room i inside);
          holds = q.holds ∙ ap (or_else (answer capacity r s.members)) m.holds;
          mail = λ i inside.
              ap (λ w. (eob_device_recv z (nodes i) w).0) (sym q.calm_again)
              ∙ recv-Behind z (c.carries i inside) (small z c i inside)
                  (slot_room z c d i inside m.room) b
              ∙ m.mail i inside;
        };
      }

  Simulates-receive :
      (b : ℕ)
      → b < count
      → Simulates z c capacity virt
          (perform z fd nodes (receives b) (calm d))
          (step capacity (addr_of z c) (receives b) s)
  Simulates-receive b inside =
      rw (eob_device_recv-calm z (c.carries b inside) d (slot_room z c d b inside m.room)) (record {
        reply = ap handed (
            sym (
              ap (λ r. r.0)
                (eob_device_recv-calm z (c.carries b inside) d (slot_room z c d b inside m.room)))
            ∙ m.mail b inside);
        calm_again = refl;
        after = m;
      })

  pub Simulates-perform :
      (a : Action)
      → IsValid count size a
      → Simulates z c capacity virt
          (perform z fd nodes a (calm d))
          (step capacity (addr_of z c) a s)
  Simulates-perform (requests r) valid = Simulates-request r valid
  Simulates-perform (sends a dat b) (from, to, fits, plain) =
      Simulates-send z c fd m a b from to dat fits plain
  Simulates-perform (receives b) inside = Simulates-receive b inside
