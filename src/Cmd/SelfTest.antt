-- ===== src/Cmd/SelfTest.antt =====
-- cmd/iface0/iface_test.c: the tests that `iface test <device>` runs, and those that it leaves out. The
-- messages that they print are not in the model.
use eoblock.Prelude.{
  refl, ◌∙◌, ℕ, suc, ◌*◌, ◌%◌, ◌≡◌, false, Option, none, some, List, [], ◌∷◌, ◌++◌, length, take,
  ltb, ◌==◌, if◌then◌else◌, codes, get_elem?, set,
}
use eoblock.Macros.{highbit64}
use eoblock.System.{
  M, World, Outcome, ok, err, abort, fault, pure, die, undefined, verify, in_bounds, ◌>>=◌, ◌>>◌,
}
use eoblock.Chksum.{Zlib}
use eoblock.Device.{HwAddr, Device, eob_hw_addr_init_default, eob_device_open_file}
use eoblock.Device.Open.{find_disk_by_path}
use eoblock.Device.Close.{Handle, opened, eob_device_close}
use eoblock.Message.{
  strlen, eob_device_send, eob_device_recv, eob_device_send_str, eob_device_recv_str,
}
use eoblock.Sysfs.Words.{same_text}
use eoblock.Cmd.{Text}
use eoblock.Cmd.Iface.{Os}

-- `EOB_VERIFY(0 == m)`
abbrev insist {ℓ} : {A : Type ℓ} → Outcome A × World → Outcome A × World
insist (ok a, w) = (ok a, w)
insist (err e, w) = (abort, w)
insist (abort, w) = (abort, w)
insist (fault, w) = (fault, w)

abbrev passes {ℓ} : {A : Type ℓ} → M A → M A
passes m w = insist (m w)

abbrev pub str_data : Text
str_data = codes "Hello! Humans! We are here!"

-- `strcmp(str_data, s) == 0`, which NULL does not define.
abbrev same_as : Text → Option Text → M (Unit {0})
same_as s none = undefined
same_as s (some t) = verify (same_text s t)

abbrev not_null : Option Text → M (Unit {0})
not_null none = die
not_null (some t) = pure tt

module _ (z : Zlib) (os : Os) (dev_name : Text) where
  abbrev pub open_as : HwAddr → M Device
  open_as addr = passes (eob_device_open_file z addr dev_name os.open_device false)

  -- Up to the receive: what `dev_src` points to, and what was received.
  unfoldable pub sent_and_received : M (Handle × (Option Text × HwAddr))
  unfolding eob_device_close
  sent_and_received = do
    dev_src ← open_as (eob_hw_addr_init_default 0 2)
    passes (eob_device_send_str z dev_src str_data 1)
    src ← eob_device_close (opened dev_src)
    dev_dst ← open_as (eob_hw_addr_init_default 1 2)
    r ← passes (eob_device_recv_str z dev_dst)
    pure (src, r)

  -- The sender's device is closed a second time where the receiver's is meant.
  unfoldable pub test_eob_send_recv : M (Unit {0})
  unfolding eob_device_close sent_and_received
  test_eob_send_recv = do
    (src, r) ← sent_and_received
    eob_device_close src
    same_as str_data r.0
    verify (0 == r.1.node_id)

  -- The address is not initialised but for its four numbers.
  abbrev pub my_addr : HwAddr
  my_addr = record {
    node_id = 1;
    nodes_count = 2;
    virt_blk_shift = 9;
    phys_blk_shift = 9;
    rest = os.stack;
  }

  -- `strcmp` reads up to the NUL, which has to be there.
  unfoldable pub test_eob_open_alloc_close : M (Unit {0})
  unfolding eob_device_close
  test_eob_open_alloc_close = do
    dev ← open_as my_addr
    passes (eob_device_send z dev (str_data ++ (0 ∷ [])) 1)
    eob_device_close (opened dev)
    dev' ← open_as my_addr
    r ← passes (eob_device_recv z dev')
    eob_device_close (opened dev')
    in_bounds (ltb (strlen r.dat) (length r.dat))
    same_as (take (strlen r.dat) r.dat) (some str_data)
    verify (r.src.node_id == 1)

  unfoldable pub test_find_dev_by_path : M (Unit {0})
  unfolding find_disk_by_path
  test_find_dev_by_path = not_null (find_disk_by_path os.udev dev_name)

  -- liboblock_init returns 0.
  abbrev all_tests : M ℕ
  all_tests = do test_find_dev_by_path; test_eob_open_alloc_close; test_eob_send_recv; pure 0

-- `argv[2]`, which is NULL where no device is given.
unfoldable pub main_test : Zlib → Os → Option Text → M ℕ
main_test z os none = die
main_test z os (some dev_name) = all_tests z os dev_name

-- The checks behind the loop that prints the macros.
unfoldable bit_hacks_test : M ℕ
bit_hacks_test = do
  verify (9 == highbit64 64 512)
  verify (9 == highbit64 64 512 % 256)
  verify (12 == highbit64 64 4096)
  verify (14 == highbit64 64 (4 * 4096))
  pure 0

unfoldable test_chksum : M ℕ
test_chksum = pure 0

-- `struct avl_test_node`
pub record AvlTestNode : Type 0 where
  pub value : ℕ
  pub tag : ℕ

-- What the test uses of lib/libavl: a tree of pointers to nodes, here indices, by their values. A node
-- that was added is found by its value.
pub record Avl : Type 1 where
  pub Tree : Type 0
  pub avl_create : Tree
  pub avl_find : Tree → ℕ → Option ℕ
  pub avl_add : Tree → ℕ → ℕ → Tree
  pub avl_find-create : (v : ℕ) → avl_find avl_create v ≡ none
  pub avl_find-add :
      (t : Tree) (v i w : ℕ)
      → avl_find t v ≡ none
      → avl_find (avl_add t v i) w ≡ (if w == v then some i else avl_find t w)

module _ (a : Avl) where
  open a use {Tree, avl_create, avl_find, avl_add}

  abbrev retagged : List AvlTestNode → ℕ → ℕ → Option AvlTestNode → List AvlTestNode
  retagged nodes idx tag none = nodes
  retagged nodes idx tag (some n) = set nodes idx (record n { tag = tag })

  abbrev entered : Tree → List AvlTestNode → ℕ → AvlTestNode → Option ℕ → Tree × List AvlTestNode
  entered t nodes i n none = (avl_add t n.value i, nodes)
  entered t nodes i n (some idx) = (t, retagged nodes idx n.tag (get_elem? nodes idx))

  -- The loop over the nodes: `i` is the index of the first one that is left.
  unfoldable enter_all : List AvlTestNode → ℕ → Tree → List AvlTestNode → Tree × List AvlTestNode
  enter_all [] i t nodes = (t, nodes)
  enter_all (n ∷ rest) i t nodes =
      let p = entered t nodes i n (avl_find t n.value) in enter_all rest (suc i) p.0 p.1

  abbrev node : ℕ → ℕ → AvlTestNode
  node value tag = record { value = value; tag = tag }

  abbrev nodes : List AvlTestNode
  nodes = node 1 1 ∷ node 2 2 ∷ node 3 3 ∷ node 1 4 ∷ []

  abbrev found_tag : Option ℕ → List AvlTestNode → Option ℕ
  found_tag none ns = none
  found_tag (some i) ns = elim (get_elem? ns i) [ none ↦ none | some n ↦ some n.tag ]

  abbrev has_tag : Option ℕ → M ℕ
  has_tag none = die
  has_tag (some tag) = do verify (tag == 4); pure 0

  unfoldable avl_test : M ℕ
  unfolding enter_all
  avl_test = let p = enter_all nodes 0 avl_create nodes in has_tag (found_tag (avl_find p.0 1) p.1)

-- The test of the tree passes: the node of the value 1 that is in the tree gets the tag of the last
-- one with that value.
avl_test-passes : (a : Avl) (w : World) → avl_test a w ≡ (ok 0, w)
unfolding avl_test
avl_test-passes a w =
    let t1 : a.Tree = a.avl_add a.avl_create 1 0 in
    let t2 : a.Tree = a.avl_add t1 2 1 in
    let t3 : a.Tree = a.avl_add t2 3 2 in
    let e1 : a.avl_find a.avl_create 1 ≡ none = a.avl_find-create 1 in
    let e2 : a.avl_find t1 2 ≡ none = a.avl_find-add a.avl_create 1 0 2 e1 ∙ a.avl_find-create 2 in
    let e3 : a.avl_find t2 3 ≡ none =
      a.avl_find-add t1 2 1 3 e2 ∙ a.avl_find-add a.avl_create 1 0 3 e1 ∙ a.avl_find-create 3 in
    let e4 : a.avl_find t3 1 ≡ some 0 =
      a.avl_find-add t2 3 2 1 e3
      ∙ a.avl_find-add t1 2 1 1 e2
      ∙ a.avl_find-add a.avl_create 1 0 1 e1 in
    rw e1 (rw e2 (rw e3 (rw e4 (rw e4 refl))))
