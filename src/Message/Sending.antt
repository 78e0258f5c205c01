-- ===== src/Message/Sending.antt =====
-- eob_device_send on a calm device, on every branch.
use eoblock.Buff.Transfer.{HasPieces, slot}
use eoblock.Chksum.{Zlib}
use eoblock.Device.{Device}
use eoblock.Errors.{eob_2big}
use eoblock.Message.{send_size, packet_of, eob_device_send}
use eoblock.Message.Calm.{Carries, virt-eq, eob_device_send-calm}
use eoblock.Message.Layout.{encode_packet}
use eoblock.System.{World, Outcome, ok, err, abort, fault, calm}
use eoblock.System.Disk.{write_at}
use eoblock.Prelude.{
  ℕ, ◌≡◌, refl, sym, ap, ◌∙◌, Bool-cases, Option-cases, inl, inr, Option, none, some, List, length,
  ltb, if◌then◌else◌,
}

-- What a send should do with data that is no longer than the block, where the switch gives that size
-- of the packet's array; `none` is NOT_IMPLEMENTED.
abbrev pub packed : Zlib → Device → Option ℕ → List ℕ → ℕ → List ℕ → Outcome (Unit {0}) × World
packed z dev none dat dst d = (abort, calm d)
packed z dev (some size) dat dst d =
    if ltb size (length dat)
    then (fault, calm d)
    else (ok tt, calm (write_at (slot dev dst) (encode_packet (packet_of z dev dat size)) d))

-- On a calm device a send reports data that is longer than the block, stops the program where the
-- blocks have a size that the switch has no case for, overruns the packet's array with data that is
-- longer than it, and otherwise writes the packet at the place of `dst`. The blocks are pieces of `2 ^
-- k` bytes, and the address of the device has its sixteen bytes.
pub eob_device_send-branches :
    (z : Zlib) {dev : Device} {k count : ℕ} (g : HasPieces dev k count) (dat : List ℕ) (dst : ℕ)
    (d : List ℕ)
    → length dev.addr.rest ≡ 12
    → eob_device_send z dev dat dst (calm d) ≡ (
        if ltb dev.hdr.h.virt_blk_size (length dat)
        then (err eob_2big, calm d)
        else packed z dev (send_size dev.hdr.h.virt_blk_size) dat dst d)
unfolding eob_device_send
eob_device_send-branches z {dev} g dat dst d twelve =
    let virt : ℕ = dev.hdr.h.virt_blk_size in
    elim (Option-cases (send_size virt)) [
      | inl missing ↦ elim (Bool-cases (ltb virt (length dat))) [
        | inl big ↦ rw big refl
        | inr fits ↦ rw fits (rw missing refl)
      ]
      | inr (size, e) ↦
          let c : Carries dev _ _ size = record { pieces = g; sends = e; addr = twelve } in
          eob_device_send-calm z c dat dst d
          ∙ ap
              (λ v.
                if ltb v (length dat)
                then (err eob_2big, calm d)
                else packed z dev (some size) dat dst d)
              (sym (virt-eq z c))
          ∙ ap
              (λ o.
                if ltb virt (length dat) then (err eob_2big, calm d) else packed z dev o dat dst d)
              (sym e)
    ]
