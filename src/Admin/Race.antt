-- ===== src/Admin/Race.antt =====
-- lib/liboblock.c: two administrators at once. An operation on the header reads it, changes it and
-- writes it back, and nothing keeps the other nodes from writing in between.
use eoblock.Admin.{is_present, eob_hdr_add_device}
use eoblock.Admin.Behind.{Behind}
use eoblock.Admin.Spec
use eoblock.Admin.Spec.{Members, members, if_present}
use eoblock.Admin.Registry.{
  FitsHeader-header_zero, IsRegistry, get_elem?-lt, next, room-next, FitsHeader-next, members-after,
  seen-after,
}
use eoblock.Errors.{eob_ok}
use eoblock.Chksum.{Zlib, eob_header_chksum_calc}
use eoblock.Header.{NodeData, Header, FitsNode, FitsHeader, header_zero}
use eoblock.HeaderIo.{read_passes, eob_read_header, eob_write_header}
use eoblock.HeaderIo.Laws.{seen, verdict-IsGood, refill_lem}
use eoblock.HeaderIo.Write.{header_block, length-header_block, seen-write}
use eoblock.System.{World, Write, full, quiet, apply_writes, Outcome, ok, calm}
use eoblock.System.Disk.{write_at, read_at-write_at_after, length-write_at}
use eoblock.Prelude.{
  ℕ, ◌≤◌, ◌<◌, ◌≡◌, refl, sym, ap, ◌∙◌, arith, false, Bool-cases, inl, inr, List, [], ◌∷◌, length,
  none, some, lt→ltb, le→leb, leb, subst, if◌then◌else◌,
}

-- A device on which nothing happens at the next system call, and which the other nodes write to
-- before the one behind it.
abbrev pub between : List ℕ → List Write → World
between d ws = record {
  disk = d;
  events = quiet ∷ record { others = ws; effect = full } ∷ [];
  heap = [];
}

abbrev later : List ℕ → List Write → World
later d ws = record { disk = d; events = record { others = ws; effect = full } ∷ []; heap = [] }

-- The write comes last, so that its header stays.
write-later :
    {hdr : Header} (fd : ℕ) (d : List ℕ) (ws : List Write)
    → FitsHeader hdr
    → 512 ≤ hdr.h.phys_blk_size
    → 0 < fd
    → eob_write_header fd hdr (later d ws)
      ≡ (ok tt, calm (write_at 0 (header_block hdr) (apply_writes ws d)))
unfolding eob_write_header header_block
write-later {hdr} fd d ws f room opened =
    rw (lt→ltb 0 fd opened)
      (rw (le→leb 512 hdr.h.phys_blk_size room) (rw (lt→ltb 0 hdr.h.phys_blk_size (omega arith))))

some≢none : {n : NodeData} → ¬ (some n ≡ none)
some≢none h = ground arith

not-present : (n : NodeData) → if_present (some n) ≡ none → is_present n ≡ false
not-present n h = elim (Bool-cases (is_present n)) [
  | inl there ↦ absurd (some≢none (subst (λ b. (if b then some n else none) ≡ none) there h))
  | inr away ↦ away
]

-- A call succeeds, and the members are these.
abbrev pub Leaves : Outcome (Unit {0}) × World → Members → Type 0
Leaves r m = (r.0 ≡ ok tt) × ((j : ℕ) → members (seen r.1.disk) j ≡ m j)

module _ (z : Zlib) {d : List ℕ} (reg : IsRegistry z d) (fd i : ℕ) (opened : 0 < fd)
    (ws : List Write) where
  read-between :
      eob_read_header z fd header_zero (between d ws)
      ≡ (ok (record { rv = eob_ok; hdr = seen d }), later d ws)
  unfolding eob_read_header read_passes
  read-between =
      rw (lt→ltb 0 fd opened)
        (rw (refill_lem z reg.device FitsHeader-header_zero) (rw (verdict-IsGood z reg.good)))

  module _ (n : NodeData) (fits : FitsNode n) where
    -- The header that was read, with the node, over what the others have written.
    abbrev overwritten : List ℕ
    overwritten = write_at 0 (header_block (next z reg i n fits)) (apply_writes ws d)

    eob_hdr_add_device-overwrites :
        i < (seen d).h.nodes_count
        → members (seen d) i ≡ none
        → eob_hdr_add_device z fd i n false (between d ws) ≡ (ok tt, calm overwritten)
    unfolding eob_hdr_add_device
    eob_hdr_add_device-overwrites inside free =
        let out : leb (seen d).h.nodes_count i ≡ false = ground arith in
        let (old, e) =
          get_elem?-lt (seen d).h.nodes i
            (omega (arith, reg.good.fits.preamble.table, reg.capacity)) in
        let vacant : if_present (some old) ≡ none = subst (λ o. if_present o ≡ none) e free in
        let absent : is_present old ≡ false = not-present old vacant in
        rw read-between (
          rw (out, e)
            (rw absent (
              rw
                (write-later fd d ws (FitsHeader-next z reg i n fits) (room-next z reg i n fits)
                  opened)
                refl)))

    members-overwritten :
        (j : ℕ)
        → i < 32
        → members (seen overwritten) j ≡ Spec.update (members (seen d)) i (if_present (some n)) j
    members-overwritten j small =
        ap (λ h. members h j)
          (seen-write (FitsHeader-next z reg i n fits) (room-next z reg i n fits)
              (apply_writes ws d)
            ∙ sym (seen-after z reg i n fits))
        ∙ members-after z reg i n fits j small

    length-block :
        (seen d).h.phys_blk_size ≡ 512 → length (header_block (next z reg i n fits)) ≡ 512
    unfolding eob_header_chksum_calc
    length-block sector =
        length-header_block (FitsHeader-next z reg i n fits) (room-next z reg i n fits) ∙ sector

    -- What the others have written behind the header stays.
    pub Behind-overlap :
        i < (seen d).h.nodes_count
        → members (seen d) i ≡ none
        → (seen d).h.phys_blk_size ≡ 512
        → 512 ≤ length (apply_writes ws d)
        → Behind (apply_writes ws d) (eob_hdr_add_device z fd i n false (between d ws))
    Behind-overlap inside free sector long =
        let size = length-block sector in
        rw (eob_hdr_add_device-overwrites inside free) (record {
          calm_again = refl;
          size = omega (
            arith,
            long,
            size,
            length-write_at 0 (header_block (next z reg i n fits)) (apply_writes ws d)
                (omega (arith, size)),
          );
          bytes = λ o m behind.
              read_at-write_at_after o m 0 (header_block (next z reg i n fits)) (apply_writes ws d)
                (omega (arith, size));
        })

  -- Whatever other nodes write between the read and the write of the header, eob_hdr_add_device
  -- succeeds at a free place of a good header, and leaves the members that it has read together
  -- with its own node: what another node has added or removed in between is lost. The blocks have
  -- 512 bytes or more, the header is for at most 32 nodes, the node's data fit their fields and the
  -- descriptor is not 0.
  pub eob_hdr_add_device-lost_update :
      (n : NodeData)
      → FitsNode n
      → i < (seen d).h.nodes_count
      → members (seen d) i ≡ none
      → Leaves
          (eob_hdr_add_device z fd i n false (between d ws))
          (Spec.update (members (seen d)) i (if_present (some n)))
  eob_hdr_add_device-lost_update n fits inside free =
      rw (eob_hdr_add_device-overwrites n fits inside free)
        (refl, (λ j. members-overwritten n fits j (omega (arith, inside, reg.capacity))))
