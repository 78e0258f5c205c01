-- ===== src/Buff/Meanwhile.antt =====
-- A receive before whose system call other nodes write.
use eoblock.System.{World, Write, full, ok, calm, pread, apply_writes}
use eoblock.Iovec.{eob_iovec_alloc_wait}
use eoblock.Device.{Device}
use eoblock.Buff.{
  alloc_pieces, alloc_table, eob_buff_create, eob_buff_alloc_phys, eob_buff_read_impl,
  eob_buff_read, eob_device_recv_raw,
}
use eoblock.Buff.Pieces.{alloc_pieces-calm}
use eoblock.Buff.Transfer.{HasPieces, pieces-whole}
use eoblock.Macros.Laws.{two_pow_pos}
use eoblock.Prelude.{ℕ, zero, suc, ◌^◌, ◌<◌, ◌≡◌, refl, List, [], ◌∷◌, replicate, lt→ltb}

-- A device that other nodes write to before the next system call, which does all that it can.
abbrev pub waiting : List ℕ → List Write → World
waiting d ws = record { disk = d; events = record { others = ws; effect = full } ∷ []; heap = [] }

module _ (d : List ℕ) (ws : List Write) where
  alloc_wait-waiting :
      (n : ℕ) → 0 < n → eob_iovec_alloc_wait n (waiting d ws) ≡ (ok (replicate n 0), waiting d ws)
  unfolding eob_iovec_alloc_wait
  alloc_wait-waiting n h = rw (lt→ltb 0 n h) refl

  alloc_pieces-waiting :
      (n size : ℕ)
      → 0 < size
      → alloc_pieces n size (waiting d ws) ≡ (ok (replicate n (replicate size 0)), waiting d ws)
  unfolding alloc_pieces
  alloc_pieces-waiting zero size h = refl
  alloc_pieces-waiting (suc n) size h =
      rw (alloc_wait-waiting size h) (rw (alloc_pieces-waiting n size h) refl)

  -- The raw receive gives what it would have given, had the others written before it started.
  pub recv_raw-waiting :
      {dev : Device} {k count : ℕ} (g : HasPieces dev k count)
      → eob_device_recv_raw dev (waiting d ws) ≡ eob_device_recv_raw dev (calm (apply_writes ws d))
  unfolding eob_device_recv_raw eob_buff_create eob_buff_read eob_buff_alloc_phys eob_buff_read_impl
      alloc_table pread
  recv_raw-waiting {dev} {k} {count} g =
      rw (g.virt, g.phys)
        (rw (pieces-whole k count g.exponent g.pos g.small (waiting d ws)) (
          rw (pieces-whole k count g.exponent g.pos g.small (calm (apply_writes ws d))) (
            rw (alloc_pieces-waiting count (2 ^ k) (two_pow_pos k))
              (rw (alloc_pieces-calm count (2 ^ k) (apply_writes ws d) (two_pow_pos k)) refl))))
