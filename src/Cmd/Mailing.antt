-- ===== src/Cmd/Mailing.antt =====
-- cmd/iface0/iface.c: what a run of `iface send` or `iface recv` does to a device, against a call of
-- the library on a device that is open already.
use eoblock.Prelude.{
  ℕ, ◌+◌, ◌<◌, ◌≡◌, refl, ap, ◌∙◌, Bool-cases, inl, inr, false, none, some, List, [], ◌∷◌, length,
  take, Option, ◌==◌, ltb, if◌then◌else◌,
}
use eoblock.System.{World, Outcome, ok, err, abort, fault, calm, continue, ◌>>=◌}
use eoblock.Chksum.{Zlib}
use eoblock.Device.{HwAddr, Device}
use eoblock.Device.Adopt.{HasHeader, opened_device, eob_device_open_file-adopts}
use eoblock.Buff.{attempt}
use eoblock.Types.{b_false}
use eoblock.Message.{strlen, Received, eob_device_recv, eob_device_recv_str}
use eoblock.Cmd.{Text, atoi}
use eoblock.Cmd.Iface.{Os, Ran, is_dash, received_text, put_text, iface_recv}
use eoblock.Cmd.Commands.{help_recv, iface_do_recv, run_command}
use eoblock.Cmd.Main.{exits, Status, find_command, main, reported}
use eoblock.Cmd.Parses.{IsRecv, recv_name}
use eoblock.Cmd.Messages.{node_of, default-Agree, printing}

-- The text that a receive of the library comes to: up to its NUL, "(null)" for no data, and a text
-- that is not set for an error.
abbrev pub text_of : Outcome Received → Outcome Text
text_of (ok r) =
    if length r.dat == 0
    then ok (40 ∷ 110 ∷ 117 ∷ 108 ∷ 108 ∷ 41 ∷ [])
    else if ltb (strlen r.dat) (length r.dat)
    then if strlen r.dat + 1 == length r.dat then ok (take (strlen r.dat) r.dat) else abort
    else fault
text_of (err e) = fault
text_of abort = abort
text_of fault = fault

-- How `iface recv` ends with a text, and how the program does.
abbrev pub printed_as : Outcome Text → Outcome Ran
printed_as (ok t) = ok (printing t)
printed_as (err e) = fault
printed_as abort = abort
printed_as fault = fault

abbrev pub ended_as : Outcome Text → Outcome Status
ended_as (ok t) = ok (exits 0 none)
ended_as (err e) = fault
ended_as abort = abort
ended_as fault = fault

-- The same from what eob_device_recv_str comes to.
abbrev text_or_null : Option Text → Text
text_or_null none = 40 ∷ 110 ∷ 117 ∷ 108 ∷ 108 ∷ 41 ∷ []
text_or_null (some str) = str

abbrev received_by : Outcome (Option Text × HwAddr) × World → Outcome Ran × World
received_by (ok (str, src), w) = (ok (printing (text_or_null str)), w)
received_by (err e, w) = (fault, w)
received_by (abort, w) = (abort, w)
received_by (fault, w) = (fault, w)

module _ (z : Zlib) (os : Os) (args : List Text) (node count device : Text) (fd : ℕ)
    (a : IsRecv args node (atoi count) device) (no_dash : is_dash device ≡ false)
    (descriptor : os.open_device ≡ some fd) (opened : 0 < fd) {d : List ℕ}
    (h : HasHeader z (node_of node count) d) where
  abbrev dev : Device
  dev = opened_device (node_of node count) device fd d

  ends :
      (r : Outcome (Option Text × HwAddr) × World)
      → continue (attempt r).0 (λ o. received_text z os o >>= put_text z os b_false 1) (attempt r).1
        ≡ received_by r
  ends (ok (none, src), w) = refl
  ends (ok (some str, src), w) = refl
  ends (err e, w) = refl
  ends (abort, w) = refl
  ends (fault, w) = refl

  -- The options are read and the device is opened.
  opening :
      run_command z os help_recv (recv_name ∷ args) (calm d)
      ≡ received_by (eob_device_recv_str z dev (calm d))
  unfolding run_command iface_do_recv iface_recv
  opening =
      let g = default-Agree (atoi node) (atoi node) (atoi count) (atoi count) in
      rw (a.parses.settings) (
        rw (a.parses.operands, a.src_is, a.file_is, a.force_is, a.verbose_is, a.nodes)
          (rw (a.to_stdout, no_dash, descriptor)
            (rw
              (eob_device_open_file-adopts z (node_of node count) device fd d g.to.address h opened)
              (ends (eob_device_recv_str z dev (calm d))))))

  pub recv-text_of :
      (o : Outcome Received)
      → eob_device_recv z dev (calm d) ≡ (o, calm d)
      → run_command z os help_recv (recv_name ∷ args) (calm d) ≡ (printed_as (text_of o), calm d)
  unfolding eob_device_recv_str
  recv-text_of (ok r) e = rw opening (
      rw e (elim (Bool-cases (length r.dat == 0)) [
        | inl empty ↦ rw empty refl
        | inr more ↦ rw more (elim (Bool-cases (ltb (strlen r.dat) (length r.dat))) [
          | inl ends ↦ rw ends (elim (Bool-cases (strlen r.dat + 1 == length r.dat)) [
            | inl whole ↦ rw whole refl
            | inr cut ↦ rw cut refl
          ])
          | inr runs ↦ rw runs refl
        ])
      ]))
  recv-text_of (err c) e = rw opening (rw e refl)
  recv-text_of abort e = rw opening (rw e refl)
  recv-text_of fault e = rw opening (rw e refl)

  ending : (o : Outcome Text) (w : World) → reported (printed_as o, w) ≡ (ended_as o, w)
  ending (ok t) w = refl
  ending (err e) w = refl
  ending abort w = refl
  ending fault w = refl

  pub main-text_of :
      (o : Outcome Received)
      → eob_device_recv z dev (calm d) ≡ (o, calm d)
      → main z os (recv_name ∷ args) (calm d) ≡ (ended_as (text_of o), calm d)
  unfolding main find_command
  main-text_of o e = ap reported (recv-text_of o e) ∙ ending (text_of o) (calm d)
