-- ===== src/HeaderIo/Laws.antt =====
-- What reading and writing the header do: what is written is read back, what is read is sound, and
-- a header that another node is rewriting is read again.
use eoblock.HeaderIo.{
  Reply, eob_hdr_magic, eob_hdr_version, verdict, refill, judged, pass, read_passes,
  eob_read_header,
}
use eoblock.Errors.{eob_ok, eob_io, eob_chksum, eob_ver_mism}
use eoblock.Chksum.{Zlib, eob_header_chksum_is_ok}
use eoblock.Header.{Header, FitsHeader, encode, encode_preamble, decode}
use eoblock.Header.RoundTrip.{length-encode, decode-encode}
use eoblock.Header.Decode.{FitsHeader-decode, AllBytes-take}
use eoblock.System.{World, M, Event, full, Outcome, ok, calm, quiets}
use eoblock.System.Disk.{overlay, overlay_all, read_at, write_at, read_at-write_at}
use eoblock.Prelude.{
  ℕ, zero, suc, ◌≤◌, ◌<◌, ◌≡◌, ◌⊎◌, refl, ap, ◌∙◌, arith, List, [], ◌∷◌, Option, none, some, length,
  take, length-take, AllBytes, lt→ltb, Option-cases, inl, inr,
}

-- The bytes of the header on a device.
abbrev head_bytes : List ℕ → List ℕ
head_bytes d = read_at 0 512 d

-- The header on a device.
unfoldable pub seen : List ℕ → Header
seen d = decode (head_bytes d)

-- A device that is large enough for a header, and holds bytes.
pub record IsDevice (d : List ℕ) : Type 0 where
  pub size : 512 ≤ length d
  pub bytes : AllBytes d

-- The code that a read returns at its end, where no pass has returned one.
abbrev pub settled : Option ℕ → ℕ
settled none = eob_chksum
settled (some rv) = rv

length-head_bytes : {d : List ℕ} → IsDevice d → length (head_bytes d) ≡ 512
unfolding read_at
length-head_bytes {d} v = omega (arith, length-take {0} 512 d, v.size)

AllBytes-head_bytes : {d : List ℕ} → IsDevice d → AllBytes (head_bytes d)
unfolding read_at
AllBytes-head_bytes {d} v = AllBytes-take 512 d v.bytes

pub FitsHeader-seen : (d : List ℕ) → IsDevice d → FitsHeader (seen d)
unfolding seen
FitsHeader-seen d v = FitsHeader-decode (head_bytes d) (AllBytes-head_bytes v) (length-head_bytes v)

-- The next system call comes after another node has written the bytes at the start of the device.
abbrev pub rewriting : List ℕ → Event
rewriting bs = record { others = record { offset = 0; bytes = bs } ∷ []; effect = full }

module _ (z : Zlib) where
  pub record IsGood (hdr : Header) : Type 0 where
    pub fits : FitsHeader hdr
    pub sum : z.crc32 (encode_preamble hdr.h) ≡ hdr.chksum
    pub magic : hdr.h.magic ≡ eob_hdr_magic
    pub version : hdr.h.version ≡ eob_hdr_version

  pub verdict-IsGood : {hdr : Header} → IsGood hdr → verdict z hdr ≡ some eob_ok
  unfolding verdict eob_header_chksum_is_ok
  verdict-IsGood g = ground arith

  -- Whatever the buffer held, a pass over a device sees the header that is there.
  pub refill_lem :
      {d : List ℕ} {hdr : Header}
      → IsDevice d
      → FitsHeader hdr
      → refill z (head_bytes d) hdr ≡ seen d
  unfolding seen
  refill_lem {d} {hdr} v f = ap decode (
      overlay_all (head_bytes d) (encode hdr) (omega (arith, length-head_bytes v, length-encode f)))

  module _ {d : List ℕ} (v : IsDevice d) where
    module _ (unread : verdict z (seen d) ≡ none) where
      read_passes-exhaust :
          (n : ℕ)
          → read_passes z n (seen d) (calm d)
            ≡ (ok (record { rv = eob_chksum; hdr = seen d }), calm d)
      unfolding read_passes
      read_passes-exhaust zero = refl
      read_passes-exhaust (suc n) =
          rw (refill_lem v (FitsHeader-seen d v)) (rw unread (read_passes-exhaust n))

    -- The passes on a device that nobody changes: the first one decides.
    read_passes-calm :
        (n : ℕ) {hdr : Header}
        → FitsHeader hdr
        → read_passes z (suc n) hdr (calm d)
          ≡ (ok (record { rv = settled (verdict z (seen d)); hdr = seen d }), calm d)
    unfolding read_passes
    read_passes-calm n f = rw (refill_lem v f) (elim (Option-cases (verdict z (seen d))) [
      | inr (rv, e) ↦ rw e
      | inl e ↦ rw e (read_passes-exhaust e n)
    ])

    -- On a device that nobody changes, a read of the header ends: with the code that its content
    -- calls for, EOB_CHKSUM where every pass asks for another, and with the header that is there.
    -- The descriptor is not 0.
    pub eob_read_header-calm :
        (fd : ℕ) {hdr : Header}
        → 0 < fd
        → FitsHeader hdr
        → eob_read_header z fd hdr (calm d)
          ≡ (ok (record { rv = settled (verdict z (seen d)); hdr = seen d }), calm d)
    unfolding eob_read_header
    eob_read_header-calm fd opened f = rw (lt→ltb 0 fd opened) (read_passes-calm 9 f)

    module _ {good : Header} (g : IsGood good) (bs : List ℕ)
        (whole : take 512 bs ≡ encode good) where
      long : 512 ≤ length bs
      long = omega (
        arith,
        length-take {0} 512 bs,
        ap (λ (xs : List ℕ). length xs) whole,
        length-encode g.fits,
      )

      seen-rewritten :
          {hdr : Header} → FitsHeader hdr → refill z (read_at 0 512 (write_at 0 bs d)) hdr ≡ good
      seen-rewritten {hdr} f =
          ap decode (
            ap (λ xs. overlay xs (encode hdr)) (read_at-write_at 0 512 bs d long ∙ whole)
            ∙ overlay_all (encode good) (encode hdr)
                (omega (arith, length-encode g.fits, length-encode f)))
          ∙ decode-encode g.fits

      read_passes-torn :
          (k n : ℕ) {hdr : Header} (es : List Event)
          → k < n
          → verdict z (seen d) ≡ none
          → FitsHeader hdr
          → read_passes z n hdr
              (record { disk = d; events = quiets k (rewriting bs ∷ es); heap = [] })
            ≡ (
              ok (record { rv = eob_ok; hdr = good }),
              record { disk = write_at 0 bs d; events = es; heap = [] },
            )
      unfolding read_passes
      read_passes-torn k zero es h u f = absurd (omega arith)
      read_passes-torn zero (suc n) es h u f = rw (seen-rewritten f) (rw (verdict-IsGood g))
      read_passes-torn (suc k) (suc n) es h u f =
          rw (refill_lem v f) (rw u (read_passes-torn k n es (omega arith) u (FitsHeader-seen d v)))

      -- On a device whose header is unreadable, and to which another node writes a good header
      -- after `k < 10` passes, a read of the header returns EOB_OK with that header. Before that
      -- nothing interferes.
      pub eob_read_header-torn :
          (fd k : ℕ) {hdr : Header} (es : List Event)
          → 0 < fd
          → k < 10
          → verdict z (seen d) ≡ none
          → FitsHeader hdr
          → eob_read_header z fd hdr
              (record { disk = d; events = quiets k (rewriting bs ∷ es); heap = [] })
            ≡ (
              ok (record { rv = eob_ok; hdr = good }),
              record { disk = write_at 0 bs d; events = es; heap = [] },
            )
      unfolding eob_read_header
      eob_read_header-torn fd k es opened h u f =
          rw (lt→ltb 0 fd opened) (read_passes-torn k 10 es h u f)

  -- What a read accepts has the right checksum, magic and version, whatever happened meanwhile.
  abbrev IsAccepted : Header → Type 0
  IsAccepted hdr =
      (z.crc32 (encode_preamble hdr.h) ≡ hdr.chksum)
      × (hdr.h.magic ≡ eob_hdr_magic)
      × (hdr.h.version ≡ eob_hdr_version)

  verdict_sound : (hdr : Header) → verdict z hdr ≡ some eob_ok → IsAccepted hdr
  unfolding verdict eob_header_chksum_is_ok
  verdict_sound hdr e = ground arith

  -- The code of a reply is EOB_OK only with an acceptable header, and otherwise one of three.
  abbrev IsSound : Reply → Type 0
  IsSound r =
      ((r.rv ≡ eob_ok) × IsAccepted r.hdr)
      ⊎ ((r.rv ≡ eob_io) ⊎ ((r.rv ≡ eob_chksum) ⊎ (r.rv ≡ eob_ver_mism)))

  -- A call returns such a reply.
  abbrev pub Replies : Outcome Reply → Type 0
  Replies (ok r) = IsSound r
  Replies _ = ⊥

  verdict-codes :
      (hdr : Header) (rv : ℕ) → verdict z hdr ≡ some rv → (rv ≡ eob_ok) ⊎ (rv ≡ eob_ver_mism)
  unfolding verdict
  verdict-codes hdr rv e = ground arith

  judged_sound :
      (o : Option ℕ) (hdr : Header) (again : Header → M Reply) (w : World)
      → verdict z hdr ≡ o
      → ((hdr : Header) (w : World) → Replies (again hdr w).0)
      → Replies (judged z o hdr again w).0
  judged_sound none hdr again w e h = h hdr w
  judged_sound (some rv) hdr again w e h = elim (verdict-codes hdr rv e) [
    | inl good ↦ inl (good, verdict_sound hdr (e ∙ ap some good))
    | inr other ↦ inr (inr (inr other))
  ]

  pass_sound :
      (o : Option (List ℕ)) (hdr : Header) (again : Header → M Reply) (w : World)
      → ((hdr : Header) (w : World) → Replies (again hdr w).0)
      → Replies (pass z o hdr again w).0
  pass_sound none hdr again w h = inr (inl refl)
  pass_sound (some bs) hdr again w h =
      judged_sound (verdict z (refill z bs hdr)) (refill z bs hdr) again w refl h

  read_passes_sound : (n : ℕ) (hdr : Header) (w : World) → Replies (read_passes z n hdr w).0
  unfolding read_passes
  read_passes_sound zero hdr w = inr (inr (inl refl))
  read_passes_sound (suc n) hdr w = pass_sound _ hdr (read_passes z n) _ (read_passes_sound n)

  -- Whatever other nodes write, and however the calls fail or fall short, a read of the header
  -- returns: with EOB_OK only where the checksum, the magic and the version of the header that it
  -- hands over are right, and else with one of the three error codes.
  pub eob_read_header_sound :
      (fd : ℕ) (hdr : Header) (w : World) → 0 < fd → Replies (eob_read_header z fd hdr w).0
  unfolding eob_read_header
  eob_read_header_sound fd hdr w opened = rw (lt→ltb 0 fd opened) (read_passes_sound 10 hdr w)
