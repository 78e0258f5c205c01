-- ===== src/Admin/Laws.antt =====
-- The administrator's operations implement `Admin.Spec`, and keep the header on the device good.
use eoblock.Admin.{is_present, put_node, rewrite, eob_hdr_add_device, eob_hdr_rem_device}
use eoblock.Admin.Spec
use eoblock.Admin.Spec.{Members, members, is_none, if_present}
use eoblock.Errors.{eob_ok, eob_inval}
use eoblock.Chksum.{Zlib, eob_header_chksum_calc}
use eoblock.Header.{NodeData, FitsNode, header_zero, node_zero}
use eoblock.HeaderIo.{eob_read_header}
use eoblock.HeaderIo.Laws.{seen, settled, verdict-IsGood, eob_read_header-calm}
use eoblock.System.{World, set_err, Outcome, ok, err, calm}
use eoblock.Prelude.{
  ℕ, ◌<◌, ◌≡◌, refl, ap, ◌∙◌, arith, Bool, true, false, ◌&&◌, ◌||◌, not, Bool-cases, inl, inr, List,
  Option, none, some, get_elem?, ltb, leb, ◌==◌, ==_iff, if◌then◌else◌,
}
use eoblock.Admin.Registry.{
  FitsHeader-header_zero, IsRegistry, get_elem?-lt, rewrite-calm, seen-after, IsRegistry-after,
  members-after,
}

module _ (z : Zlib) where
  -- How a call on a calm device ends, against what the specification answers: a success leaves a
  -- good device with the members that are due and the same capacity and sizes, a refusal is
  -- EOB_INVAL and changes nothing.
  abbrev pub Implements : Outcome (Unit {0}) × World → List ℕ → Option Members → Type 0
  Implements (ok u, w) d (some m) =
      (w ≡ calm w.disk)
      × IsRegistry z w.disk
      × ((j : ℕ) → members (seen w.disk) j ≡ m j)
      × ((seen w.disk).h.nodes_count ≡ (seen d).h.nodes_count)
      × ((seen w.disk).h.virt_blk_size ≡ (seen d).h.virt_blk_size)
      × ((seen w.disk).h.phys_blk_size ≡ (seen d).h.phys_blk_size)
  Implements (err e, w) d none = (e ≡ eob_inval) × (w ≡ calm d)
  Implements _ d o = ⊥

  module _ {d : List ℕ} (reg : IsRegistry z d) (fd i : ℕ) (opened : 0 < fd) where
    abbrev capacity : ℕ
    capacity = (seen d).h.nodes_count

    -- The read succeeds, and the header is the device's.
    pub read-registry :
        eob_read_header z fd header_zero (calm d)
        ≡ (ok (record { rv = eob_ok; hdr = seen d }), calm d)
    read-registry =
        eob_read_header-calm z reg.device fd opened FitsHeader-header_zero
        ∙ ap (λ o. (ok (record { rv = settled o; hdr = seen d }), calm d))
            (verdict-IsGood z reg.good)

    Implements-rewrite :
        (n : NodeData)
        → FitsNode n
        → i < 32
        → Implements
            (rewrite z fd (put_node i n (seen d)) (calm d))
            d
            (some (Spec.update (members (seen d)) i (if_present (some n))))
    unfolding eob_header_chksum_calc
    Implements-rewrite n fits h = rw (rewrite-calm z reg i n fits fd opened) (
      refl,
      IsRegistry-after z reg i n fits,
      (λ j. members-after z reg i n fits j h),
      ap (λ x. x.h.nodes_count) (seen-after z reg i n fits),
      ap (λ x. x.h.virt_blk_size) (seen-after z reg i n fits),
      ap (λ x. x.h.phys_blk_size) (seen-after z reg i n fits),
    )

    -- On a calm device with a good header, of blocks of 512 bytes or more and for at most 32 nodes,
    -- eob_hdr_add_device does to the header what `Spec.add` does to the members. Where the place is
    -- below the number of nodes and free, or is taken by force, it succeeds, the node's data stand
    -- at its place, the other members are as before, and the header is good and has its sizes.
    -- Otherwise it returns EOB_INVAL and changes nothing. The node's data fit their fields.
    pub eob_hdr_add_device_refines :
        (n : NodeData) (force : Bool)
        → FitsNode n
        → Implements
            (eob_hdr_add_device z fd i n force (calm d))
            d
            (Spec.add capacity i n force (members (seen d)))
    unfolding eob_hdr_add_device
    eob_hdr_add_device_refines n force fits = rw read-registry (elim (Bool-cases (leb capacity i)) [
      | inl out ↦ let f : ltb i capacity ≡ false = ground arith in rw (out, f) (refl, refl)
      | inr inside ↦
          let small : i < 32 = ground (arith, reg.capacity) in
          let f : ltb i capacity ≡ true = ground arith in
          let (old, e) =
            get_elem?-lt (seen d).h.nodes i (omega (arith, reg.good.fits.preamble.table)) in
          rw (inside, f) (rw e (taken old force small))
    ])
      where
        taken :
            (old : NodeData) (force : Bool)
            → i < 32
            → Implements
                ((if not force && is_present old
                    then set_err eob_inval
                    else rewrite z fd (put_node i n (seen d)))
                  (calm d))
                d
                (if force || is_none (if_present (some old))
                  then some (Spec.update (members (seen d)) i (if_present (some n)))
                  else none)
        taken old true small = Implements-rewrite n fits small
        taken old false small = elim (Bool-cases (is_present old)) [
          | inl there ↦ rw there (refl, refl)
          | inr free ↦ rw free (Implements-rewrite n fits small)
        ]

    -- On a calm device with a good header, of blocks of 512 bytes or more and for at most 32 nodes,
    -- eob_hdr_rem_device succeeds for a place below 32: nobody is at that place afterwards, the
    -- other members are as before, and the header is good and has its sizes.
    pub eob_hdr_rem_device_refines :
        i < 32
        → Implements
            (eob_hdr_rem_device z fd i (calm d))
            d
            (some (Spec.remove i (members (seen d))))
    unfolding eob_hdr_rem_device
    eob_hdr_rem_device_refines small =
        let (old, e) =
          get_elem?-lt (seen d).h.nodes i (omega (arith, reg.good.fits.preamble.table)) in
        rw read-registry (
          rw e (elim (Bool-cases (is_present old)) [
            | inl there ↦ rw there (Implements-rewrite node_zero (omega arith) small)
            | inr free ↦ rw free (refl, reg, absent old e free, refl, refl, refl)
          ]))
      where
        absent :
            (old : NodeData)
            → get_elem? (seen d).h.nodes i ≡ some old
            → is_present old ≡ false
            → (j : ℕ) → members (seen d) j ≡ Spec.remove i (members (seen d)) j
        absent old e free j = elim (Bool-cases (j == i)) [
          | inl same ↦ let s : j ≡ i = (==_iff j i).0 same in rw same (rw s (rw e (rw free)))
          | inr other ↦ rw other
        ]
