-- ===== src/Commands/Rm.antt =====
-- What `rm` removes, and what it reports.
use p2box.Commands.{
  message, rm_outcome, RmFlags, done, cmd_rm, remove_machines, remove_machine,
  remove_remote_machine, remove_local_machine, user_confirm,
}
use p2box.Base.{
  ++-is-[], ◌↔◌, subst, ◌≡◌, refl, Bool, true, false, String, List, [], ◌∷◌, ◌++◌, Option, inl, inr,
  ◌<>◌, sym, ap, ◌∙◌,
}
use p2box.Go.Laws.{Result-cases}
use p2box.Go.{Error, wrap, ok, err}
use p2box.Host.{Host}
use p2box.Persist.Hosts.{Store}

module _ {W : Type 0} (api : Store W (Host W)) where
  forced_done : (errors : List Error) → rm_outcome api true errors ≡ done
  forced_done [] = refl
  forced_done (e ∷ errors) = refl

  unforced_done : (errors : List Error) → rm_outcome api false errors ≡ done → errors ≡ []
  unforced_done [] h = refl
  unforced_done (e ∷ errors) h = cc

  -- With the flag `force`, `rm` on at least one name reports no error, whatever the removals report.
  pub cmd_rm_forced :
      (arg : String) (args : List String) (y : Bool) (answer : Option Bool) (w : W)
      → (cmd_rm api (arg ∷ args) (record { force = true; y = y }) answer w).0 ≡ done
  unfolding cmd_rm
  cmd_rm_forced arg args true answer w = forced_done (remove_machines api true (arg ∷ args) [] w).0
  cmd_rm_forced arg args false answer w = forced_done (remove_machines api true (arg ∷ args) [] w).0

  -- If the question of `rm` is not answered with yes, and neither flag is set, nothing happens.
  pub cmd_rm_declined :
      (arg : String) (args : List String) (flags : RmFlags) (answer : Option Bool) (w : W)
      → user_confirm flags.y flags.force answer ≡ false
      → cmd_rm api (arg ∷ args) flags answer w ≡ (done, w)
  unfolding cmd_rm
  cmd_rm_declined arg args flags answer w h = rw h

  -- Without `force`, a machine that the driver does not remove stays in the store: its error is
  -- collected, and nothing is done after the failed removal.
  pub remove_machine_keeps :
      (host_name : String) (errors : List Error) (w : W) (e : Error)
      → (remove_remote_machine api host_name w).0 ≡ err e
      → remove_machine api false host_name errors w ≡ (
        errors ++ (wrap ("Error removing host \"" <> host_name <> "\"") e ∷ []),
        (remove_remote_machine api host_name w).1,
      )
  unfolding remove_machine
  remove_machine_keeps host_name errors w e h = rw h

  -- Each machine is removed by its driver and then from the store, in the order of the names.
  abbrev pub AllRemoved : List String → W → Type 0
  AllRemoved [] w = Unit
  AllRemoved (n ∷ ns) w =
      let remote = remove_remote_machine api n w in
      let local = remove_local_machine api n remote.1 in
      (remote.0 ≡ ok tt) × (local.0 ≡ ok tt) × AllRemoved ns local.1

  remove_machine_reports :
      (n : String) (errors : List Error) (w : W) (e : Error)
      → (remove_remote_machine api n w).0 ≡ ok tt
      → (remove_local_machine api n (remove_remote_machine api n w).1).0 ≡ err e
      → (remove_machine api false n errors w).0
        ≡ errors ++ (message ("Can't remove \"" <> n <> "\"") ∷ [])
  unfolding remove_machine
  remove_machine_reports n errors w e r l = rw (r, l)

  remove_machine_done :
      (n : String) (errors : List Error) (w : W)
      → (remove_remote_machine api n w).0 ≡ ok tt
      → (remove_local_machine api n (remove_remote_machine api n w).1).0 ≡ ok tt
      → remove_machine api false n errors w
        ≡ (errors, (remove_local_machine api n (remove_remote_machine api n w).1).1)
  unfolding remove_machine
  remove_machine_done n errors w r l = rw (r, l)

  remove_machine-[] :
      (n : String) (errors : List Error) (w : W)
      → (remove_machine api false n errors w).0 ≡ []
      → let remote = remove_remote_machine api n w in
        let local = remove_local_machine api n remote.1 in
        (errors ≡ [])
        × (remote.0 ≡ ok tt)
        × (local.0 ≡ ok tt)
        × (remove_machine api false n errors w ≡ (errors, local.1))
  remove_machine-[] n errors w h =
      let remote = remove_remote_machine api n w in
      let local = remove_local_machine api n remote.1 in
      elim (Result-cases remote.0) [
        | inl (a, r) ↦ elim (Result-cases local.0) [
          | inl (b, l) ↦
              let step = remove_machine_done n errors w r l in
              (sym (ap (λ p. p.0) step) ∙ h, r, l, step)
          | inr (e, l) ↦
              absurd (++-is-[] errors _ (sym (remove_machine_reports n errors w e r l) ∙ h))
        ]
        | inr (e, r) ↦
            absurd
              (++-is-[] errors _ (sym (ap (λ p. p.0) (remove_machine_keeps n errors w e r)) ∙ h))
      ]

  remove_machines-[] :
      (ns : List String) (errors : List Error) (w : W)
      → (remove_machines api false ns errors w).0 ≡ []
      → (errors ≡ []) × AllRemoved ns w
  unfolding remove_machines
  remove_machines-[] [] errors w h = (h, tt)
  remove_machines-[] (n ∷ ns) errors w h =
      let (none_so_far, rest) =
        remove_machines-[] ns (remove_machine api false n errors w).0
          (remove_machine api false n errors w).1 h in
      let (e, r, l, step) = remove_machine-[] n errors w none_so_far in
      (e, (r, l, subst (λ p. AllRemoved ns p) (ap (λ p. p.1) step) rest))

  remove_machines_all :
      (ns : List String) (w : W) → AllRemoved ns w → (remove_machines api false ns [] w).0 ≡ []
  unfolding remove_machines
  remove_machines_all [] w all = refl
  remove_machines_all (n ∷ ns) w (r, l, all) =
      let step = remove_machine_done n [] w r l in
      ap (λ p. (remove_machines api false ns p.0 p.1).0) step ∙ remove_machines_all ns _ all

  -- Without `force`, and with the question answered by the flag `y`, `rm` reports no error exactly
  -- if each of the machines, in the order of the names, was removed by its driver and then from
  -- the store.
  pub cmd_rm_done_iff :
      (arg : String) (args : List String) (answer : Option Bool) (w : W)
      → ((cmd_rm api (arg ∷ args) (record { force = false; y = true }) answer w).0 ≡ done)
        ↔ AllRemoved (arg ∷ args) w
  unfolding cmd_rm
  cmd_rm_done_iff arg args answer w = (
    λ h.
        (remove_machines-[] (arg ∷ args) [] w
          (unforced_done (remove_machines api false (arg ∷ args) [] w).0 h)).1,
    λ all. ap (rm_outcome api false) (remove_machines_all (arg ∷ args) w all),
  )
