-- ===== src/Admin/Behind.antt =====
-- lib/liboblock.c: what the administrator's operations leave of the bytes behind the header, where the
-- physical blocks have 512 bytes.
use eoblock.Admin.{is_present, put_node, rewrite, eob_hdr_add_device, eob_hdr_rem_device}
use eoblock.Admin.Registry.{IsRegistry, get_elem?-lt, rewrite-calm, read_at-after, length-after}
use eoblock.Admin.Laws.{read-registry}
use eoblock.Admin.Requests.{Request, add, remove, IsValid, serve}
use eoblock.Chksum.{Zlib}
use eoblock.Header.{NodeData, FitsNode, node_zero}
use eoblock.HeaderIo.Laws.{seen}
use eoblock.System.{World, Outcome, calm, M}
use eoblock.System.Disk.{read_at}
use eoblock.Prelude.{
  ℕ, ◌≤◌, ◌<◌, ◌≡◌, refl, arith, Bool, not, ◌&&◌, List, length, leb, if-elim, Bool-cases, inl, inr,
}

-- A call leaves a calm device, whose bytes behind the header are those of `d`.
pub record Behind (d : List ℕ) (r : Outcome (Unit {0}) × World) : Type 0 where
  pub calm_again : r.1 ≡ calm r.1.disk
  pub size : length r.1.disk ≡ length d
  pub bytes : (o m : ℕ) → 512 ≤ o → read_at o m r.1.disk ≡ read_at o m d

module _ (z : Zlib) {d : List ℕ} (reg : IsRegistry z d) (sector : (seen d).h.phys_blk_size ≡ 512)
    (fd : ℕ) (opened : 0 < fd) where
  unchanged : {o : Outcome (Unit {0})} → Behind d (o, calm d)
  unchanged = record { calm_again = refl; size = refl; bytes = λ o m h. refl }

  module _ (i : ℕ) where
    rewritten :
        (n : NodeData) → FitsNode n → Behind d (rewrite z fd (put_node i n (seen d)) (calm d))
    rewritten n fits = rw (rewrite-calm z reg i n fits fd opened) (record {
      calm_again = refl;
      size = length-after z reg i n fits sector;
      bytes = read_at-after z reg i n fits sector;
    })

    Behind-add :
        (n : NodeData) (force : Bool)
        → FitsNode n
        → Behind d (eob_hdr_add_device z fd i n force (calm d))
    unfolding eob_hdr_add_device
    Behind-add n force fits =
        rw (read-registry z reg fd i opened) (elim (Bool-cases (leb (seen d).h.nodes_count i)) [
          | inl out ↦ rw out unchanged
          | inr inside ↦
              let (old, e) =
                get_elem?-lt (seen d).h.nodes i
                  (ground (arith, reg.good.fits.preamble.table, reg.capacity)) in
              rw inside (
                rw e (
                  if-elim (λ (m : M (Unit {0})). Behind d (m (calm d)))
                    (not force && is_present old) (λ _. unchanged) (λ _. rewritten n fits)))
        ])

    Behind-rem : i < 32 → Behind d (eob_hdr_rem_device z fd i (calm d))
    unfolding eob_hdr_rem_device
    Behind-rem small =
        let (old, e) =
          get_elem?-lt (seen d).h.nodes i (omega (arith, reg.good.fits.preamble.table)) in
        rw (read-registry z reg fd i opened) (
          rw e (
            if-elim (λ (m : M (Unit {0})). Behind d (m (calm d))) (not (is_present old))
              (λ _. unchanged) (λ _. rewritten node_zero (omega arith))))

  pub Behind-serve : (r : Request) → IsValid r → Behind d (serve z fd r (calm d))
  Behind-serve (add i n force) fits = Behind-add i n force fits
  Behind-serve (remove i) small = Behind-rem i small
