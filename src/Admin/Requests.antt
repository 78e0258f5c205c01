-- ===== src/Admin/Requests.antt =====
-- lib/liboblock.c: the administrator's commands, each of them a program of its own, and what they make
-- of the membership.
use eoblock.Admin.{eob_hdr_add_device, eob_hdr_rem_device}
use eoblock.Admin.Spec
use eoblock.Admin.Spec.{Members, members}
use eoblock.Admin.Registry.{IsRegistry}
use eoblock.Admin.Laws.{Implements, eob_hdr_add_device_refines, eob_hdr_rem_device_refines}
use eoblock.Chksum.{Zlib}
use eoblock.Errors.{eob_inval}
use eoblock.Header.{NodeData, FitsNode}
use eoblock.HeaderIo.Laws.{seen}
use eoblock.System.{World, Outcome, ok, err, abort, fault, M, calm}
use eoblock.Prelude.{ℕ, ◌<◌, ◌≡◌, refl, sym, ap, ◌∙◌, subst, Bool, Option, none, some, List}

pub data Request : Type 0 where
  add : ℕ → NodeData → Bool → Request
  remove : ℕ → Request

-- A node's data fit their fields; a place that is removed is in the table.
abbrev pub IsValid : Request → Type 0
IsValid (add i n force) = FitsNode n
IsValid (remove i) = i < 32

-- What is to come of a request: the members, or a refusal.
abbrev pub answer : ℕ → Request → Members → Option Members
answer capacity (add i n force) m = Spec.add capacity i n force m
answer capacity (remove i) m = some (Spec.remove i m)

abbrev pub code_of : Option Members → Outcome (Unit {0})
code_of none = err eob_inval
code_of (some m) = ok tt

abbrev pub or_else : Option Members → Members → Members
or_else none m = m
or_else (some m') m = m'

module _ (z : Zlib) (fd : ℕ) where
  abbrev pub serve : Request → M (Unit {0})
  serve (add i n force) = eob_hdr_add_device z fd i n force
  serve (remove i) = eob_hdr_rem_device z fd i

  -- A request ends as it is to, and leaves a good device with the members.
  pub record Served (d : List ℕ) (r : Outcome (Unit {0}) × World) (o : Option Members)
      : Type 0 where
    pub code : r.0 ≡ code_of o
    pub calm_again : r.1 ≡ calm r.1.disk
    pub registry : IsRegistry z r.1.disk
    pub holds : members (seen r.1.disk) ≡ or_else o (members (seen d))
    pub capacity : (seen r.1.disk).h.nodes_count ≡ (seen d).h.nodes_count
    pub sector : (seen r.1.disk).h.phys_blk_size ≡ (seen d).h.phys_blk_size
    pub virt : (seen r.1.disk).h.virt_blk_size ≡ (seen d).h.virt_blk_size

  Implements-Served :
      {d : List ℕ} (reg : IsRegistry z d) (r : Outcome (Unit {0}) × World) (o : Option Members)
      → Implements z r d o
      → Served d r o
  Implements-Served reg (ok u, w) (some m) (c, g, h, n, v, p) = record {
    code = refl;
    calm_again = c;
    registry = g;
    holds = λ i j. h j i;
    capacity = n;
    sector = p;
    virt = v;
  }
  Implements-Served reg (err e, w) none (c, k) = record {
    code = ap err c;
    calm_again = k ∙ sym (ap (λ v. calm v.disk) k);
    registry = subst (λ v. IsRegistry z v.disk) (sym k) reg;
    holds = ap (λ v. members (seen v.disk)) k;
    capacity = ap (λ v. (seen v.disk).h.nodes_count) k;
    sector = ap (λ v. (seen v.disk).h.phys_blk_size) k;
    virt = ap (λ v. (seen v.disk).h.virt_blk_size) k;
  }
  Implements-Served reg (ok u, w) none h = absurd h
  Implements-Served reg (err e, w) (some m) h = absurd h
  Implements-Served reg (abort, w) none h = absurd h
  Implements-Served reg (abort, w) (some m) h = absurd h
  Implements-Served reg (fault, w) none h = absurd h
  Implements-Served reg (fault, w) (some m) h = absurd h

  module _ (opened : 0 < fd) where
    pub serve-Served :
        {d : List ℕ} (reg : IsRegistry z d) (r : Request)
        → IsValid r
        → Served d (serve r (calm d)) (answer (seen d).h.nodes_count r (members (seen d)))
    serve-Served reg (add i n force) fits =
        Implements-Served reg _ _ (eob_hdr_add_device_refines z reg fd i opened n force fits)
    serve-Served reg (remove i) small =
        Implements-Served reg _ _ (eob_hdr_rem_device_refines z reg fd i opened small)
