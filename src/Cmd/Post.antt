-- ===== src/Cmd/Post.antt =====
-- cmd/iface0/iface.c: a text that is sent stays until the next one to the same node.
use eoblock.Admin.Registry.{IsRegistry}
use eoblock.Chksum.{Zlib}
use eoblock.Cluster.{handed}
use eoblock.Cluster.Mail.{NoneTo, steps-letter, letter-cons}
use eoblock.Cluster.Mirror.{HasRoom}
use eoblock.Device.{HwAddr}
use eoblock.HeaderIo.Laws.{seen}
use eoblock.Message.Delivery.{NoNul, strlen-NoNul}
use eoblock.System.{ok, calm}
use eoblock.Cmd.{Text, atoi}
use eoblock.Cmd.Canon.{node_device, node_device-IsCluster}
use eoblock.Cmd.Follows.{run_uses-Keeps, Follows-use}
use eoblock.Cmd.Iface.{Os}
use eoblock.Cmd.Mailing.{text_of, printed_as, ended_as}
use eoblock.Cmd.Main.{exits}
use eoblock.Cmd.Messages.{printing}
use eoblock.Cmd.Users.{Use, posts, fetches, run_use, run_uses, actions_of, shows, IsValid, AllValid}
use eoblock.Prelude.{
  ℕ, suc, ◌+◌, ◌≤◌, ◌≡◌, refl, ap, ◌∙◌, arith, some, none, List, [], ◌∷◌, ◌++◌, length,
  length-append, take-append, ◌==◌, lt→ltb, eq→==, false,
}

text_of-text :
    (s : Text) (src : HwAddr)
    → NoNul s
    → text_of (ok (record { dat = s ++ (0 ∷ []); src = src })) ≡ ok s
text_of-text s src nonul =
    let more : length (s ++ (0 ∷ [])) ≡ suc (length s) =
      omega (arith, length-append {0} s (0 ∷ [])) in
    let not_zero : (suc (length s) == 0) ≡ false = ground arith in
    rw (more, strlen-NoNul s nonul)
      (rw
        (
          not_zero,
          lt→ltb (length s) (suc (length s)) (omega arith),
          eq→== (length s + 1) (suc (length s)) (omega arith),
        )
        (ap ok (take-append (length s) s (0 ∷ []) refl)))

module _ (z : Zlib) (count : Text) {n : ℕ} (few : n ≤ 256) {d : List ℕ} (reg : IsRegistry z d)
    (sector : (seen d).h.phys_blk_size ≡ 512) (block : (seen d).h.virt_blk_size ≡ 512)
    (room : HasRoom z (node_device-IsCluster count n few) d) where
  -- A text that a run of `iface send` has sent to a node is what a run of `iface recv` by that node
  -- prints, with status 0, whatever runs of these forms come in between: `iface add`, with or without
  -- -F, `iface remove`, `iface send` to other nodes and `iface recv` by any. Runs of `iface init` and
  -- `iface deinit` are not among them. Messages are sent without -F, from a file or the standard input,
  -- and received to the standard output without -F and -v; the options stand in any order. The device
  -- is calm, with a good header for blocks of 512 bytes and at most 32 nodes, and has the blocks of the
  -- nodes, which are at most 256; it opens in each run with a descriptor that is not 0, its name is not
  -- "-" for messages, all of which name the same number of nodes, addresses are read, a place that is
  -- removed is below 32, files open, and a text that is sent has less than 480 bytes and no NUL among
  -- them.
  pub run_use-mail :
      (os os' : Os) (args args' : List Text) (src dst text device device' : Text)
      (between : List Use)
      → AllValid count n (posts os args src dst text device ∷ between)
      → IsValid count n (fetches os' args' dst device')
      → NoneTo (atoi dst) (actions_of between)
      → (run_use z
          (fetches os' args' dst device')
          (run_uses z (posts os args src dst text device ∷ between) (calm d)).1).0
        ≡ (ok (exits 0 none), some (ok (printing text)))
  run_use-mail os os' args args' src dst text device device' between (valid, vs) fetch none_to =
      let k =
        run_uses-Keeps z count few (posts os args src dst text device ∷ between) reg sector block
          room (valid, vs) in
      let f = Follows-use z count few k.after (fetches os' args' dst device') fetch in
      let (file, asked, readable, fd, o, no_dash, r, from, to) = valid in
      let dat = text ++ (0 ∷ []) in
      ap (λ w. (run_use z (fetches os' args' dst device') w).0) k.calm_again
      ∙ f.shown
      ∙ ap (λ b. shows (handed b))
          (steps-letter (seen d).h.nodes_count (λ i. (node_device count i).addr) (atoi src)
              (atoi dst) dat (actions_of between) _ none_to
            ∙ letter-cons _ dat (omega (arith, length-append {0} text (0 ∷ []))))
      ∙ ap (λ t. (ended_as t, some (printed_as t)))
          (text_of-text text (node_device count (atoi src)).addr r.nonul)
