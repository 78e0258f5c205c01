-- ===== src/Buff/Frame.antt =====
-- A transfer to a node's block leaves the rest of the device, however its system calls and its
-- allocations end.
use native.Mathlib.Nat.{mul-div_cancel}
use eoblock.Macros.{p2_roundup}
use eoblock.Macros.Laws.{two_pow_pos}
use eoblock.System.{
  World, Event, Effect, fail, short, full, Outcome, M, continue, ◌>>=◌, pwrite, moved, written,
}
use eoblock.System.Disk.{read_at, write_at, read_at-write_at_before, read_at-write_at_after}
use eoblock.System.Offline.{Same, Ends, returns, fails, aborts, faults, Offline}
use eoblock.Iovec.{Iovec}
use eoblock.HeaderIo.{io_result}
use eoblock.Device.{Device}
use eoblock.Buff.{
  Buff, new_buff, flat, slot_offset, eob_buff_write_impl, eob_buff_write, eob_device_send_raw,
}
use eoblock.Buff.Pieces.{p2_roundup-multiple}
use eoblock.Buff.Offline.{Offline-or_no_memory, Offline-map_data_to_phys, Offline-buff_create}
use eoblock.Buff.Transfer.{HasPieces, slot, two_pow-small}
use eoblock.Prelude.{
  ℕ, ◌+◌, ◌*◌, ◌/◌, ◌^◌, ◌≤◌, ◌≡◌, ◌⊎◌, inl, inr, refl, sym, ap, ◌∙◌, subst, arith, Option, none,
  some, List, [], ◌∷◌, length, take, length-take,
}

-- No other node writes at the system calls to come.
abbrev pub Alone : List Event → Type 0
Alone [] = Unit
Alone (e ∷ es) = (e.others ≡ []) × Alone es

-- `n` bytes from `o` on lie on the device before the range of `size` bytes at `offset`, or behind it.
abbrev pub Outside : ℕ → ℕ → ℕ → ℕ → List ℕ → Type 0
Outside offset size o n d = ((o + n ≤ offset) × (o + n ≤ length d)) ⊎ (offset + size ≤ o)

-- The `n` bytes from `o` on are those of the device `d`.
pub record Keeps {ℓ} {A : Type ℓ} (o n : ℕ) (d : List ℕ) (r : Outcome A × World) : Type 0 where
  pub bytes : read_at o n r.1.disk ≡ read_at o n d

module _ (o n : ℕ) where
  write_at-Outside :
      (offset size : ℕ) (bs d : List ℕ)
      → length bs ≤ size
      → Outside offset size o n d
      → read_at o n (write_at offset bs d) ≡ read_at o n d
  write_at-Outside offset size bs d h (inl (a, b)) = read_at-write_at_before o n offset bs d a b
  write_at-Outside offset size bs d h (inr a) = read_at-write_at_after o n offset bs d (omega arith)

  written-Outside :
      (offset : ℕ) (bs d : List ℕ) (effect : Effect)
      → Outside offset (length bs) o n d
      → read_at o n (written offset (moved effect bs) d).1 ≡ read_at o n d
  written-Outside offset bs d fail out = refl
  written-Outside offset bs d full out = write_at-Outside offset (length bs) bs d (omega arith) out
  written-Outside offset bs d (short k) out =
      write_at-Outside offset (length bs) (take k bs) d (omega (arith, length-take {0} k bs)) out

  pwrite-Outside :
      (offset : ℕ) (bs : List ℕ) (events : List Event) (w : World)
      → w.events ≡ events
      → Alone events
      → Outside offset (length bs) o n w.disk
      → Keeps o n w.disk (pwrite offset bs w)
  unfolding pwrite
  pwrite-Outside offset bs [] w e alone out = record {
    bytes = rw e (written-Outside offset bs w.disk full out);
  }
  pwrite-Outside offset bs (x ∷ es) w e (quiet, alone) out = record {
    bytes = rw (e, quiet) (written-Outside offset bs w.disk x.effect out);
  }

  pub Keeps-Same {ℓ} :
      {A : Type ℓ} {w v : World} {r : Outcome A × World}
      → Same w v
      → Keeps o n v.disk r
      → Keeps o n w.disk r
  Keeps-Same s h = record { bytes = h.bytes ∙ ap (read_at o n) s.disk }

  pub Ends-Keeps {ℓ} :
      {A : Type ℓ} {P : A → Type 0} {w : World} {r : Outcome A × World}
      → Ends P w r
      → Keeps o n w.disk r
  Ends-Keeps (returns s p) = record { bytes = ap (read_at o n) s.disk }
  Ends-Keeps (fails s) = record { bytes = ap (read_at o n) s.disk }
  Ends-Keeps (aborts s) = record { bytes = ap (read_at o n) s.disk }
  Ends-Keeps (faults s) = record { bytes = ap (read_at o n) s.disk }

  -- Steps that make no system call, and what is done behind them.
  continue-Keeps {ℓ κ} :
      {A : Type ℓ} {B : Type κ} {P : A → Type 0} {f : A → M B} {w : World} {r : Outcome A × World}
      → Ends P w r
      → ((a : A) (v : World) → Same w v → P a → Keeps o n w.disk (f a v))
      → Keeps o n w.disk (continue r.0 f r.1)
  continue-Keeps (returns {a} {v} s p) k = k a v s p
  continue-Keeps (fails s) k = record { bytes = ap (read_at o n) s.disk }
  continue-Keeps (aborts s) k = record { bytes = ap (read_at o n) s.disk }
  continue-Keeps (faults s) k = record { bytes = ap (read_at o n) s.disk }

  pub bind-Keeps {ℓ κ} :
      {A : Type ℓ} {B : Type κ} {P : A → Type 0} {m : M A} {f : A → M B}
      → Offline P m
      → (w : World) → ((a : A) (v : World) → Same w v → P a → Keeps o n w.disk (f a v))
      → Keeps o n w.disk ((m >>= f) w)
  bind-Keeps h w k = continue-Keeps (h.at w) k

  io_result-Keeps :
      (x : Option ℕ) (d : List ℕ) (v : World)
      → read_at o n v.disk ≡ read_at o n d
      → Keeps o n d (io_result x v)
  io_result-Keeps none d v e = record { bytes = e }
  io_result-Keeps (some k) d v e = record { bytes = e }

  write_impl-Keeps :
      (b : Buff) (node : ℕ) (w : World)
      → Alone w.events
      → Outside (slot_offset b.virt_blk_size node) (length (flat b.phys_blocks)) o n w.disk
      → Keeps o n w.disk (eob_buff_write_impl b node w)
  unfolding eob_buff_write_impl
  write_impl-Keeps b node w alone out =
      io_result-Keeps _ w.disk _
        (pwrite-Outside (slot_offset b.virt_blk_size node) (flat b.phys_blocks) w.events w refl
          alone out).bytes

  module _ {dev : Device} {k count : ℕ} (g : HasPieces dev k count) (node : ℕ) where
    abbrev virt : ℕ
    virt = dev.hdr.h.virt_blk_size

    -- The bytes lie outside the node's block.
    abbrev pub OutsideSlot : List ℕ → Type 0
    OutsideSlot d = Outside (slot dev node) virt o n d

    whole-pieces :
        (dat : List ℕ)
        → length dat ≡ virt
        → p2_roundup (length dat) dev.hdr.h.phys_blk_size
            / dev.hdr.h.phys_blk_size
            * dev.hdr.h.phys_blk_size
          ≡ virt
    whole-pieces dat e =
        let r : p2_roundup (count * 2 ^ k) (2 ^ k) ≡ count * 2 ^ k =
          p2_roundup-multiple k count (omega (arith, g.exponent)) g.pos
            (omega (arith, g.small, two_pow-small k count g.exponent g.pos g.small)) in
        rw (e, g.virt, g.phys) (rw r (rw (mul-div_cancel count (two_pow_pos k)) refl))

    buff_write-Keeps :
        (dat : List ℕ) (w : World)
        → length dat ≡ virt
        → Alone w.events
        → OutsideSlot w.disk
        → Keeps o n w.disk (eob_buff_write (new_buff dev dat) node w)
    unfolding eob_buff_write
    buff_write-Keeps dat w whole alone out =
        bind-Keeps (Offline-map_data_to_phys (new_buff dev dat)) w (λ b v s cut. Keeps-Same s (
          write_impl-Keeps b node v (subst Alone (sym s.events) alone)
            (rw (cut.0, cut.1) (rw (whole-pieces dat whole, s.disk) out))))

    -- `eob_device_send_raw` of a block leaves what lies outside the node's block.
    pub send_raw-Keeps :
        (d : Iovec) (w : World)
        → ((dat : List ℕ) → d.iov_base ≡ some dat → length dat ≡ virt)
        → Alone w.events
        → OutsideSlot w.disk
        → Keeps o n w.disk (eob_device_send_raw dev node d w)
    unfolding eob_device_send_raw
    send_raw-Keeps d w whole alone out = bind-Keeps (Offline-buff_create dev d) w (λ found v s made.
        Keeps-Same s (
          bind-Keeps (Offline-or_no_memory found made) v (λ b u t of. Keeps-Same t (
            subst (λ x. Keeps o n u.disk (eob_buff_write x node u)) (sym of.2)
              (buff_write-Keeps of.0 u (whole of.0 of.1)
                (subst Alone (sym (t.events ∙ s.events)) alone)
                (subst OutsideSlot (sym (t.disk ∙ s.disk)) out))))))
