-- ===== src/Cmd/Misuse.antt =====
-- cmd/iface0/iface.c: command lines that the commands do not accept.
use eoblock.Chksum.{Zlib}
use eoblock.Errors.{eob_badusage}
use eoblock.System.{World, Outcome, ok, err, M}
use eoblock.Cmd.{Text, getopt, read_opts, unset, Settings}
use eoblock.Cmd.Commands.{
  Help, help_test, help_send, help_recv, help_init, help_deinit, help_add, help_remove, help_dump,
  switch, opts_of, required, device_of, run_command, with_settings, body_of, iface_do_send,
  iface_do_recv, iface_do_dump, iface_do_add, iface_do_remove, iface_do_init, iface_do_deinit,
}
use eoblock.Cmd.Iface.{Os, Ran}
use eoblock.Cmd.Main.{
  stdout, exits, usage, is_help, find_command, iface_command_table, reported, run_found, main,
}
use eoblock.Prelude.{
  ◌≡◌, ◌≢◌, refl, ap, ◌∙◌, Bool, true, false, ◌&&◌, Option, none, some, List, [], ◌∷◌,
}

abbrev given : Option Text → Bool
given none = false
given (some t) = true

-- The options that a command does not do without.
abbrev pub complete : Help → Settings → Bool
complete help_send s = given s.src && given s.dst
complete help_recv s = given s.src
complete help_add s = given s.ip && given s.node_id
complete help_remove s = given s.node_id
complete _ s = true

-- A device is named behind the command.
abbrev pub has_device : List Text → Bool
has_device (name ∷ device ∷ rest) = true
has_device _ = false

abbrev accepts_settings : Help → Option Settings → List Text → Bool
accepts_settings cmd none operands = false
accepts_settings cmd (some s) operands = complete cmd s && has_device operands

-- The options are the command's own, none is missing, and a device is named.
abbrev pub accepts : Help → List Text → Bool
accepts cmd args =
    let p = getopt (opts_of cmd) args in
    accepts_settings cmd (read_opts switch p.opts unset) p.operands

abbrev refused : World → Outcome Ran × World
refused w = (err eob_badusage, w)

no_device :
    (operands : List Text) (next : Text → M Ran) (w : World)
    → has_device operands ≡ false
    → device_of operands next w ≡ refused w
no_device [] next w e = refl
no_device (name ∷ []) next w e = refl
no_device (name ∷ device ∷ rest) next w e = absurd (cc e)

two_behind :
    (o p : Option Text) (operands : List Text) (next : Text → Text → Text → M Ran) (w : World)
    → ((given o && given p) && has_device operands) ≡ false
    → device_of operands (λ device. required o (λ a. required p (next device a))) w ≡ refused w
two_behind o p [] next w e = refl
two_behind o p (name ∷ []) next w e = refl
two_behind none p (name ∷ device ∷ rest) next w e = refl
two_behind (some a) none (name ∷ device ∷ rest) next w e = refl
two_behind (some a) (some b) (name ∷ device ∷ rest) next w e = absurd (cc e)

one_behind :
    (o : Option Text) (operands : List Text) (next : Text → Text → M Ran) (w : World)
    → (given o && has_device operands) ≡ false
    → device_of operands (λ device. required o (next device)) w ≡ refused w
one_behind o [] next w e = refl
one_behind o (name ∷ []) next w e = refl
one_behind none (name ∷ device ∷ rest) next w e = refl
one_behind (some a) (name ∷ device ∷ rest) next w e = absurd (cc e)

one_before :
    (o : Option Text) (operands : List Text) (next : Text → Text → M Ran) (w : World)
    → (given o && has_device operands) ≡ false
    → required o (λ a. device_of operands (next a)) w ≡ refused w
one_before none operands next w e = refl
one_before (some a) operands next w e = no_device operands (next a) w e

two_before :
    (o p : Option Text) (operands : List Text) (next : Text → Text → Text → M Ran) (w : World)
    → ((given o && given p) && has_device operands) ≡ false
    → required o (λ a. required p (λ b. device_of operands (next a b))) w ≡ refused w
two_before none p operands next w e = refl
two_before (some a) p operands next w e = one_before p operands (next a) w e

module _ (z : Zlib) (os : Os) where
  body_refuses :
      (cmd : Help) (s : Settings) (operands : List Text) (w : World)
      → cmd ≢ help_test
      → (complete cmd s && has_device operands) ≡ false
      → body_of z os cmd s operands w ≡ refused w
  unfolding iface_do_send iface_do_recv iface_do_dump iface_do_add iface_do_remove iface_do_init
      iface_do_deinit
  body_refuses help_test s operands w other e = absurd (other refl)
  body_refuses help_send s operands w other e = two_behind s.src s.dst operands _ w e
  body_refuses help_recv s operands w other e = one_behind s.src operands _ w e
  body_refuses help_init s operands w other e = no_device operands _ w e
  body_refuses help_deinit s operands w other e = no_device operands _ w e
  body_refuses help_add s operands w other e = two_before s.ip s.node_id operands _ w e
  body_refuses help_remove s operands w other e = one_before s.node_id operands _ w e
  body_refuses help_dump s operands w other e = no_device operands _ w e

  settings_refuse :
      (cmd : Help) (o : Option Settings) (operands : List Text) (w : World)
      → cmd ≢ help_test
      → accepts_settings cmd o operands ≡ false
      → with_settings o (λ s. body_of z os cmd s operands) w ≡ refused w
  settings_refuse cmd none operands w other e = refl
  settings_refuse cmd (some s) operands w other e = body_refuses cmd s operands w other e

  command_refuses :
      (cmd : Help) (args : List Text) (w : World)
      → cmd ≢ help_test
      → accepts cmd args ≡ false
      → run_command z os cmd args w ≡ refused w
  unfolding run_command
  command_refuses cmd args w other e =
      let p = getopt (opts_of cmd) args in
      settings_refuse cmd (read_opts switch p.opts unset) p.operands w other e

  found_runs :
      (cmd : Help) (args : List Text) (w : World)
      → cmd ≢ help_test
      → run_found z os (some cmd) args w ≡ reported (run_command z os cmd args w)
  found_runs help_test args w other = absurd (other refl)
  found_runs help_send args w other = refl
  found_runs help_recv args w other = refl
  found_runs help_init args w other = refl
  found_runs help_deinit args w other = refl
  found_runs help_add args w other = refl
  found_runs help_remove args w other = refl
  found_runs help_dump args w other = refl

  -- A command line of any command but `test` with an option that the command does not have, or
  -- without an argument for one, without an option that the command needs, or without a device,
  -- touches no device, whatever the world does: it ends with the usage, on the standard output and
  -- with status 0.
  pub main-misuse :
      (cmd : Help) (name : Text) (rest : List Text) (w : World)
      → is_help name ≡ false
      → find_command name iface_command_table ≡ some cmd
      → cmd ≢ help_test
      → accepts cmd (name ∷ rest) ≡ false
      → main z os (name ∷ rest) w ≡ (ok (exits 0 (some stdout)), w)
  unfolding main usage
  main-misuse cmd name rest w named found other e =
      rw (named, found)
        (found_runs cmd (name ∷ rest) w other
          ∙ ap reported (command_refuses cmd (name ∷ rest) w other e))
