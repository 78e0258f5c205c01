-- ===== src/Cmd/Follows.antt =====
-- cmd/iface0/iface.c: a sequence of uses of one device.
use eoblock.Admin.Registry.{IsRegistry}
use eoblock.Admin.Requests.{answer, code_of, serve}
use eoblock.Admin.Spec.{Members}
use eoblock.Chksum.{Zlib}
use eoblock.Cluster.{requests, sends, receives, Reply, done, handed}
use eoblock.Cluster.Mirror.{IsCluster, Mirrors, HasRoom, slot_room}
use eoblock.Cluster.Refines.{view_of, Mirrors-view_of}
use eoblock.Cluster.Sending.{sent-as}
use eoblock.Cluster.Spec.{View, step, steps}
use eoblock.Cluster.Steps.{request-Served, Simulates-perform}
use eoblock.Device.{Device}
use eoblock.Device.Adopt.{HasHeader}
use eoblock.HeaderIo.Laws.{seen}
use eoblock.Message.{eob_device_recv}
use eoblock.System.{World, calm}
use eoblock.Cmd.{Text, atoi}
use eoblock.Cmd.Administers
use eoblock.Cmd.Administers.{Opens, Asks, line-Asks, request_of, status_for, ended}
use eoblock.Cmd.Canon.{node_device, node_device-IsCluster, recv-opened, with_message-delivered}
use eoblock.Cmd.Iface.{Os}
use eoblock.Cmd.Lines.{Line, run_line}
use eoblock.Cmd.Mailing.{recv-text_of, main-text_of}
use eoblock.Cmd.Messages.{node_of, send_run}
use eoblock.Cmd.Users.{
  Use, administers, posts, fetches, Shown, run_use, run_uses, action_of, shows, promised, IsValid,
  AllValid,
}
use eoblock.Prelude.{
  ℕ, ◌≤◌, ◌≡◌, refl, sym, ap, ◌∙◌, subst, arith, Option, none, some, List, [], ◌∷◌, ◌++◌, length,
  length-append, AllBytes, AllBytes-append,
}

module _ (z : Zlib) (count : Text) {n : ℕ} (few : n ≤ 256) where
  abbrev nodes : ℕ → Device
  nodes = node_device count

  abbrev c : IsCluster nodes n 9 1 480
  c = node_device-IsCluster count n few

  -- The use shows what the specification says, and leaves a calm device that stands for the rest.
  pub record Follows (capacity : ℕ) (r : Shown × World) (a : Reply × View) : Type 0 where
    pub shown : r.0 ≡ shows a.0
    pub calm_again : r.1 ≡ calm r.1.disk
    pub after : Mirrors z c capacity 512 r.1.disk a.1

  module _ {capacity : ℕ} {d : List ℕ} {s : View} (m : Mirrors z c capacity 512 d s) where
    header : (node : Text) → HasHeader z (node_of node count) d
    header node = record {
      device = m.registry.device;
      good = m.registry.good;
      phys = m.sector ∙ omega arith;
      virt = m.block ∙ omega arith;
    }

    answered : (o : Option Members) → (status_for o, none) ≡ shows (done (code_of o))
    answered none = refl
    answered (some x) = refl

    Follows-line :
        (l : Line)
        → Administers.IsValid l
        → Follows capacity
            (run_use z (administers l) (calm d))
            (step capacity (λ i. (nodes i).addr) (requests (request_of l)) s)
    Follows-line l valid =
        let a = line-Asks z l (calm d) valid in
        let r = serve z a.fd (request_of l) (calm d) in
        let o = answer capacity (request_of l) s.members in
        let p = Simulates-perform z c a.fd a.pos m (requests (request_of l)) a.valid in
        let q = request-Served z c a.fd a.pos m (request_of l) a.valid in
        let run : run_line z l (calm d) ≡ (status_for o, r.1) =
          a.asked ∙ ended z r.0 r.1 o q.code in
        rw run (record { shown = answered o; calm_again = p.calm_again; after = p.after })

    Follows-post :
        (os : Os) (args : List Text) (src dst text device : Text)
        → IsValid count n (posts os args src dst text device)
        → Follows capacity
            (run_use z (posts os args src dst text device) (calm d))
            (step capacity (λ i. (nodes i).addr) (action_of (posts os args src dst text device)) s)
    Follows-post os args src dst text device (file, asked, readable, fd, o, no_dash, r, from, to) =
        let dat = text ++ (0 ∷ []) in
        let fits : length dat ≤ 480 = omega (arith, length-append {0} text (0 ∷ []), r.short) in
        let bytes : AllBytes dat = AllBytes-append text (0 ∷ []) r.bytes (omega arith, tt) in
        let h = header src in
        let p =
          Simulates-perform z c fd o.pos m (sends (atoi src) dat (atoi dst))
            (from, to, fits, bytes) in
        let sent = sent-as z c fd m (atoi src) (atoi dst) from to dat fits bytes in
        rw
          (send_run z os args src dst count file device fd text asked no_dash readable o.opened
            o.pos r.nonul r.short r.bytes h r.input)
          (record {
            shown = refl;
            calm_again = refl;
            after =
                subst
                  (λ x.
                    Mirrors z c capacity 512 x
                      (step capacity (λ i. (nodes i).addr) (sends (atoi src) dat (atoi dst)) s).1)
                  (ap (λ x. x.1.disk) sent
                    ∙ sym (with_message-delivered z count device fd src dst h dat))
                  p.after;
          })

    Follows-fetch :
        (os : Os) (args : List Text) (node device : Text)
        → IsValid count n (fetches os args node device)
        → Follows capacity
            (run_use z (fetches os args node device) (calm d))
            (step capacity (λ i. (nodes i).addr) (receives (atoi node)) s)
    Follows-fetch os args node device (asked, fd, o, no_dash, inside) =
        let i = atoi node in
        let h = header node in
        let box = (eob_device_recv z (nodes i) (calm d)).0 in
        let e = recv-opened z count device fd node h (slot_room z c d i inside m.room) in
        rw (main-text_of z os args node count device fd asked no_dash o.opened o.pos h box e) (
          rw (recv-text_of z os args node count device fd asked no_dash o.opened o.pos h box e)
            (record {
              shown = ap (λ b. shows (handed b)) (m.mail i inside);
              calm_again = refl;
              after = m;
            }))

    pub Follows-use :
        (u : Use)
        → IsValid count n u
        → Follows capacity
            (run_use z u (calm d))
            (step capacity (λ i. (nodes i).addr) (action_of u) s)
    Follows-use (administers l) valid = Follows-line l valid
    Follows-use (posts os args src dst text device) valid =
        Follows-post os args src dst text device valid
    Follows-use (fetches os args node device) valid = Follows-fetch os args node device valid

  -- What the uses show is what was promised, and the device stands for the state that is left.
  pub record Keeps (capacity : ℕ) (r : List Shown × World) (a : List Shown × View) : Type 0 where
    pub shown : r.0 ≡ a.0
    pub calm_again : r.1 ≡ calm r.1.disk
    pub after : Mirrors z c capacity 512 r.1.disk a.1

  pub run_uses-Mirrors :
      (us : List Use) {capacity : ℕ} {d : List ℕ} {s : View}
      → Mirrors z c capacity 512 d s
      → AllValid count n us
      → Keeps capacity (run_uses z us (calm d)) (promised capacity count us s)
  unfolding run_uses steps
  run_uses-Mirrors [] m tt = record { shown = refl; calm_again = refl; after = m }
  run_uses-Mirrors (u ∷ us) {capacity} {d} {s} m (valid, vs) =
      let p = Follows-use m u valid in
      let rest =
        subst
          (λ w.
            Keeps capacity (run_uses z us w)
              (promised capacity count us (step capacity (λ i. (nodes i).addr) (action_of u) s).1))
          (sym p.calm_again) (run_uses-Mirrors us p.after vs) in
      record {
        shown = λ i. p.shown i ∷ rest.shown i;
        calm_again = rest.calm_again;
        after = rest.after;
      }

  -- The same from the header and the mail that are on the device.
  pub run_uses-Keeps :
      (us : List Use) {d : List ℕ}
      → IsRegistry z d
      → (seen d).h.phys_blk_size ≡ 512
      → (seen d).h.virt_blk_size ≡ 512
      → HasRoom z c d
      → AllValid count n us
      → Keeps
          (seen d).h.nodes_count
          (run_uses z us (calm d))
          (promised (seen d).h.nodes_count count us (view_of z c d))
  run_uses-Keeps us {d} reg sector block room valid =
      run_uses-Mirrors us (Mirrors-view_of z c reg sector block room) valid
