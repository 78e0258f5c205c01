-- ===== src/Device/Open/Never.antt =====
-- lib/liboblock.c: eob_device_open_disk, whose virtual block shift is 238: `1 << 238` is not defined,
-- and every way to an open device comes to it.
use eoblock.Chksum.{Zlib}
use eoblock.Errors.{eob_ok, eob_ealready, eob_inval, eob_nomem}
use eoblock.System.{
  World, Outcome, ok, err, abort, fault, M, continue, ◌>>=◌, pure, set_err, return_err, traced,
}
use eoblock.System.Offline.{
  Ends, returns, fails, aborts, faults, Offline, Any, Offline-pure, Offline-set_err,
  Offline-undefined, Offline-bind, Offline-calloc,
}
use eoblock.Macros.Laws.{highbit64_int_16k}
use eoblock.Header.{Header, header_zero}
use eoblock.Types.{boolean_of, is_b_true}
use eoblock.HeaderIo.{Reply, eob_read_header, eob_device_read_header}
use eoblock.HeaderIo.Laws.{Replies, eob_read_header_sound}
use eoblock.Device.{
  HwAddr, Device, one_shl, adopt, renew, eob_device_init_hdr, unless_already, new_device, finish,
  is_rewritable, eob_device_open_fd,
}
use eoblock.Device.Open.{
  PathInfo, found_disk, find_disk_by_path, udev_get_phys_blk_size, opened, set_size, disk_addr,
  eob_device_open_disk,
}
use eoblock.Buff.Offline.{Offline-alloc}
use eoblock.Iovec.{eob_iovec_alloc}
use eoblock.Cmd.{Text}
use eoblock.Prelude.{
  ℕ, ◌^◌, ◌≡◌, ◌≢◌, inl, inr, refl, ap, ◌∙◌, arith, Bool, false, not, ◌&&◌, ◌||◌, ltb, ◌==◌,
  Bool-cases, if-elim, if◌then◌else◌,
}

-- The call does not return a device in a run that C defines: it ends with an error, the program is
-- stopped, or it comes to what is not defined.
abbrev pub Shut : Outcome Device → Type 0
Shut (ok dev) = ⊥
Shut _ = Unit

-- The same, and the error is not the one that opening takes for success.
abbrev Barred : Outcome Device → Type 0
Barred (ok dev) = ⊥
Barred (err e) = e ≢ eob_ealready
Barred abort = Unit
Barred fault = Unit

continue-Shut {ℓ} :
    {A : Type ℓ} (r : Outcome A) (f : A → M Device) (w : World)
    → ((a : A) (v : World) → Shut (f a v).0)
    → Shut (continue r f w).0
continue-Shut (ok a) f w h = h a w
continue-Shut (err e) f w h = tt
continue-Shut abort f w h = tt
continue-Shut fault f w h = tt

bind-Shut {ℓ} :
    {A : Type ℓ} (m : M A) (f : A → M Device) (w : World)
    → ((a : A) (v : World) → Shut (f a v).0)
    → Shut ((m >>= f) w).0
bind-Shut m f w h = continue-Shut (m w).0 f (m w).1 h

-- `1 << 238`
one_shl-Barred : (s : ℕ) (f : ℕ → M Device) (w : World) → s ≡ 238 → Barred ((one_shl s >>= f) w).0
one_shl-Barred s f w e = let out : ltb s 31 ≡ false = ground arith in rw out tt

module _ (z : Zlib) (dev : Device) (large : dev.addr.virt_blk_shift ≡ 238) where
  renew-Barred : (hdr : Header) (w : World) → Barred (renew z dev hdr w).0
  unfolding renew
  renew-Barred hdr w = one_shl-Barred dev.addr.virt_blk_shift _ w large

  -- After `1 << phys_blk_shift`.
  compared-Barred :
      (hdr : Header) (phys : ℕ) (w : World)
      → Barred
          ((if not (hdr.h.phys_blk_size == phys) then set_err eob_inval else do
            virt ← one_shl dev.addr.virt_blk_shift
            if not (hdr.h.virt_blk_size == virt)
                then set_err eob_inval
                else if ltb hdr.h.virt_blk_size hdr.h.phys_blk_size
                then set_err eob_inval
                else pure (record dev { hdr = hdr }))
            w).0
  compared-Barred hdr phys w =
      if-elim (λ (m : M Device). Barred (m w).0) (not (hdr.h.phys_blk_size == phys))
        (λ _ e. omega (arith, e)) (λ _. one_shl-Barred dev.addr.virt_blk_shift _ w large)

  adopt-Barred : (hdr : Header) (w : World) → Barred (adopt z dev hdr w).0
  unfolding adopt
  adopt-Barred hdr w = elim (Bool-cases (ltb dev.addr.phys_blk_shift 31)) [
    | inl small ↦ rw small (compared-Barred hdr (2 ^ dev.addr.phys_blk_shift) w)
    | inr out ↦ rw out tt
  ]

-- A read of the header does not end with the code that opening takes for success.
abbrev Told : Outcome Reply → Type 0
Told (ok r) = r.rv ≢ eob_ealready
Told (err e) = e ≢ eob_ealready
Told abort = Unit
Told fault = Unit

told : (z : Zlib) (r : Reply) → Replies z (ok r) → r.rv ≢ eob_ealready
told z r h e = ground (arith, h, e)

Replies-Told : (z : Zlib) (o : Outcome Reply) → Replies z o → Told o
Replies-Told z (ok r) h = told z r h
Replies-Told z (err e) h = absurd h
Replies-Told z abort h = tt
Replies-Told z fault h = tt

read-Told : (z : Zlib) (fd : ℕ) (w : World) → Told (eob_device_read_header z fd header_zero w).0
unfolding eob_device_read_header eob_read_header
read-Told z fd w = elim (Bool-cases (ltb 0 fd)) [
  | inl there ↦ Replies-Told z _ (eob_read_header_sound z fd header_zero w (ground arith))
  | inr zero ↦ rw zero tt
]

module _ (z : Zlib) (dev : Device) (large : dev.addr.virt_blk_shift ≡ 238) (force : Bool) where
  replied-Barred :
      (r : Reply) (w : World)
      → r.rv ≢ eob_ealready
      → Barred
          ((if not (r.rv == eob_ok) && not (is_rewritable r.rv)
              then return_err r.rv
              else if not (r.rv == eob_ok) || is_b_true (boolean_of force)
              then renew z dev r.hdr
              else adopt z dev r.hdr)
            w).0
  replied-Barred r w told =
      if-elim (λ (m : M Device). Barred (m w).0) (not (r.rv == eob_ok) && not (is_rewritable r.rv))
        (λ _. told)
        (λ _.
          if-elim (λ (m : M Device). Barred (m w).0)
            (not (r.rv == eob_ok) || is_b_true (boolean_of force))
            (λ _. renew-Barred z dev large r.hdr w) (λ _. adopt-Barred z dev large r.hdr w))

  continued-Barred :
      (o : Outcome Reply) (w : World)
      → Told o
      → Barred
          (continue o
            (λ r.
              if not (r.rv == eob_ok) && not (is_rewritable r.rv)
              then return_err r.rv
              else if not (r.rv == eob_ok) || is_b_true (boolean_of force)
              then renew z dev r.hdr
              else adopt z dev r.hdr)
            w).0
  continued-Barred (ok r) w t = replied-Barred r w t
  continued-Barred (err e) w t = t
  continued-Barred abort w t = tt
  continued-Barred fault w t = tt

  init_hdr-Barred : (w : World) → Barred (eob_device_init_hdr z dev force w).0
  unfolding eob_device_init_hdr
  init_hdr-Barred w =
      continued-Barred (eob_device_read_header z dev.fd header_zero w).0
        (eob_device_read_header z dev.fd header_zero w).1 (read-Told z dev.fd w)

  unless_already-Shut : (r : Outcome Device × World) → Barred r.0 → Shut (unless_already z dev r).0
  unless_already-Shut (ok d, w) h = absurd h
  unless_already-Shut (err e, w) h =
      let other : (e == eob_ealready) ≡ false = ground arith in rw other tt
  unless_already-Shut (abort, w) h = tt
  unless_already-Shut (fault, w) h = tt

module _ (z : Zlib) (addr : HwAddr) (path : Text) where
  sized-Offline :
      (b : Bool)
      → Offline {A = Device}
          (λ dev. dev.addr ≡ addr)
          (if not b then set_err eob_nomem else do
            size ← one_shl addr.phys_blk_shift
            buf ← eob_iovec_alloc size
            pure (record { addr = addr; path = path; fd = 0; hdr = header_zero; phys_buff = buf }))
  sized-Offline b =
      if-elim (λ m. Offline (λ (dev : Device). dev.addr ≡ addr) m) (not b)
        (λ _. Offline-set_err eob_nomem)
        (λ _.
          Offline-bind {P = Any}
            (if-elim (λ m. Offline Any m) (ltb addr.phys_blk_shift 31) (λ _. Offline-pure tt)
              (λ _. Offline-undefined))
            (λ size _. Offline-bind (Offline-alloc size) (λ buf _. Offline-pure refl)))

  new_device-Offline : Offline {A = Device} (λ dev. dev.addr ≡ addr) (new_device z addr path)
  new_device-Offline = Offline-bind Offline-calloc (λ b _. sized-Offline b)

  ended-Shut :
      {P : Device → Type 0} (f : Device → M Device) {w : World} {r : Outcome Device × World}
      → Ends P w r
      → ((dev : Device) (v : World) → P dev → Shut (f dev v).0)
      → Shut (continue r.0 f r.1).0
  ended-Shut f (returns {a} {v} same p) k = k a v p
  ended-Shut f (fails same) k = tt
  ended-Shut f (aborts same) k = tt
  ended-Shut f (faults same) k = tt

  open_fd-Shut :
      (fd : ℕ) (force : Bool) (w : World)
      → addr.virt_blk_shift ≡ 238
      → Shut (eob_device_open_fd z addr fd path force w).0
  unfolding eob_device_open_fd
  open_fd-Shut fd force w large =
      ended-Shut (λ dev. finish z (record dev { fd = fd }) force) (new_device-Offline.at w)
        (λ dev v e.
          unless_already-Shut z (record dev { fd = fd }) (ap (λ a. a.virt_blk_shift) e ∙ large)
            force (eob_device_init_hdr z (record dev { fd = fd }) force v)
            (init_hdr-Barred z (record dev { fd = fd }) (ap (λ a. a.virt_blk_shift) e ∙ large) force
              v))

-- No run of eob_device_open_disk that C defines returns a device: each ends with an error, is stopped
-- by an assertion, or comes to behaviour that is not defined, which `1 << 238` is for an `int`.
-- Nothing is said of what a machine makes of that shift. This holds whatever the device holds,
-- whatever other nodes do, however system calls and allocations end, and whatever udev lists.
pub eob_device_open_disk-never :
    (z : Zlib) (info : PathInfo) (node_id nodes_count : ℕ) (path : Text) (force : Bool) (w : World)
    → Shut (eob_device_open_disk z info node_id nodes_count path force w).0
unfolding eob_device_open_disk
eob_device_open_disk-never z info node_id nodes_count path force w =
    bind-Shut (found_disk (find_disk_by_path info.udev path)) _ w (λ u v.
      bind-Shut (traced (udev_get_phys_blk_size info.udev path)) _ v (λ listed v'.
        bind-Shut (opened info.descriptor) _ v' (λ fd v''.
          bind-Shut (set_size listed) _ v'' (λ size x.
            bind-Shut (one_shl (disk_addr node_id nodes_count size).phys_blk_shift) _ x (λ p y.
              open_fd-Shut z (disk_addr node_id nodes_count size) path fd force y
                highbit64_int_16k)))))
