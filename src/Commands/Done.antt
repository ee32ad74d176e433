-- ===== src/Commands/Done.antt =====
-- When an action on many machines ends without an error.
use p2box.Base.{++-is-[], ◌≡◌, ◌≢◌, ◌↔◌, refl, String, List, [], ◌∷◌, Option, ap, ◌∙◌, inl, inr}
use p2box.Go.{Error, Result, ok, err, Go}
use p2box.Go.Laws.{Result-cases}
use p2box.Drivers.{System}
use p2box.Provision.{AuthOptions, Registered}
use p2box.Host.{Host}
use p2box.Persist.Hosts.{Store, Loaded, load_hosts}
use p2box.Commands.{done, collect}
use p2box.Commands.Actions.{
  machine_command, receive, run_action_foreach_machine, save_hosts, save_unless, act_on, run_action,
}

collect-[] :
    (r : Result (Unit {0})) (errs : List Error)
    → collect (λ e. e) r errs ≡ []
    → (errs ≡ []) × (r ≡ ok tt)
collect-[] (ok u) errs h = (h, refl)
collect-[] (err e) errs h = absurd (++-is-[] errs e h)

module _ {W : Type 0} (sys : System W) (provisioners : List (Registered W))
    (bootstrap_certificates : Option AuthOptions → Go W Unit)
    (order : List (Host W) → List (Host W)) (api : Store W (Host W)) where
  abbrev command : String → Host W → Go W Unit
  command = machine_command sys provisioners bootstrap_certificates order api

  -- Each action succeeds, one after the other.
  abbrev pub AllActed : String → List (Host W) → W → Type 0
  AllActed action_name [] w = Unit
  AllActed action_name (h ∷ machines) w =
      ((command action_name h w).0 ≡ ok tt)
      × AllActed action_name machines (command action_name h w).1

  -- Each machine is saved, one after the other.
  abbrev pub AllSaved : List (Host W) → W → Type 0
  AllSaved [] w = Unit
  AllSaved (h ∷ hosts) w = ((api.save h w).0 ≡ ok tt) × AllSaved hosts (api.save h w).1

  receive-[] :
      (action_name : String) (machines : List (Host W)) (errs : List Error) (w : W)
      → (receive sys provisioners bootstrap_certificates order api action_name machines errs w).0
        ≡ []
      → (errs ≡ []) × AllActed action_name machines w
  unfolding receive
  receive-[] action_name [] errs w h = (h, tt)
  receive-[] action_name (m ∷ machines) errs w h =
      let (r, w') = command action_name m w in
      let (none_so_far, rest) = receive-[] action_name machines (collect (λ e. e) r errs) w' h in
      let (e, acted) = collect-[] r errs none_so_far in (e, (acted, rest))

  receive_all :
      (action_name : String) (machines : List (Host W)) (w : W)
      → AllActed action_name machines w
      → (receive sys provisioners bootstrap_certificates order api action_name machines [] w).0 ≡ []
  unfolding receive
  receive_all action_name [] w all = refl
  receive_all action_name (m ∷ machines) w (acted, all) =
      rw (acted, receive) (receive_all action_name machines _ all)

  save_hosts-done :
      (hosts : List (Host W)) (w : W)
      → (save_hosts sys provisioners bootstrap_certificates order api hosts w).0 ≡ done
      → AllSaved hosts w
  unfolding save_hosts
  save_hosts-done [] w h = tt
  save_hosts-done (x ∷ hosts) w h = elim (Result-cases (api.save x w).0) [
    | inl (a, e) ↦ (e, save_hosts-done hosts (api.save x w).1 (rw (e, save_hosts) at h))
    | inr (a, e) ↦ cc (rw (e, save_hosts) at h)
  ]

  save_hosts_all :
      (hosts : List (Host W)) (w : W)
      → AllSaved hosts w
      → (save_hosts sys provisioners bootstrap_certificates order api hosts w).0 ≡ done
  unfolding save_hosts
  save_hosts_all [] w all = refl
  save_hosts_all (x ∷ hosts) w (e, all) = rw (e, save_hosts) (save_hosts_all hosts _ all)

  abbrev foreach_machine : String → List (Host W) → W → List Error × W
  foreach_machine = run_action_foreach_machine sys provisioners bootstrap_certificates order api

  -- Every machine was loaded, there is one, and all of them acted and were saved.
  abbrev pub IsThrough : String → Loaded (Host W) → W → Type 0
  IsThrough action_name (hosts, hosts_in_error) w =
      (hosts_in_error ≡ [])
      × (hosts ≢ [])
      × AllActed action_name (order hosts) w
      × AllSaved hosts (foreach_machine action_name hosts w).1

  save_unless-done :
      (errs : List Error) (hosts : List (Host W)) (w : W)
      → (save_unless sys provisioners bootstrap_certificates order api errs hosts w).0 ≡ done
      → (errs ≡ []) × AllSaved hosts w
  save_unless-done [] hosts w h = (refl, save_hosts-done hosts w h)
  save_unless-done (e ∷ errs) hosts w h = cc h

  act_on-done :
      (action_name : String) (hosts : List (Host W)) (hosts_in_error : List (String × Error))
      (w : W)
      → (act_on sys provisioners bootstrap_certificates order api action_name hosts hosts_in_error
          w).0
        ≡ done
      → IsThrough action_name (hosts, hosts_in_error) w
  unfolding act_on run_action_foreach_machine
  act_on-done action_name hosts (e ∷ hosts_in_error) w h = cc h
  act_on-done action_name [] [] w h = cc h
  act_on-done action_name (x ∷ hosts) [] w h =
      let (r, w') = foreach_machine action_name (x ∷ hosts) w in
      let (none, saved) = save_unless-done r (x ∷ hosts) w' h in
      (refl, (λ p. cc p), (receive-[] action_name (order (x ∷ hosts)) [] w none).1, saved)

  act_on_through :
      (action_name : String) (hosts : List (Host W)) (hosts_in_error : List (String × Error))
      (w : W)
      → IsThrough action_name (hosts, hosts_in_error) w
      → (act_on sys provisioners bootstrap_certificates order api action_name hosts hosts_in_error
          w).0
        ≡ done
  unfolding act_on run_action_foreach_machine
  act_on_through action_name hosts (e ∷ hosts_in_error) w (q, ne, acted, saved) = cc q
  act_on_through action_name [] [] w (q, ne, acted, saved) = absurd (ne refl)
  act_on_through action_name (x ∷ hosts) [] w (q, ne, acted, saved) =
      let r = foreach_machine action_name (x ∷ hosts) w in
      let quiet : r.0 ≡ [] = receive_all action_name (order (x ∷ hosts)) w acted in
      ap
        (λ errs.
          (save_unless sys provisioners bootstrap_certificates order api errs (x ∷ hosts) r.1).0)
        quiet
      ∙ save_hosts_all (x ∷ hosts) r.1 saved

  -- An action on machines that are named ends without an error exactly if every one of them was
  -- loaded, its action succeeded on each in the order in which they ran, and then each was saved,
  -- in the order of the names.
  pub run_action_done_iff :
      (action_name arg : String) (args : List String) (w : W)
      → ((run_action sys provisioners bootstrap_certificates order api action_name (arg ∷ args) w).0
          ≡ done)
        ↔ IsThrough action_name (load_hosts api (arg ∷ args) w).0 (load_hosts api (arg ∷ args) w).1
  unfolding run_action
  run_action_done_iff action_name arg args w =
      let ((hosts, hosts_in_error), w') = load_hosts api (arg ∷ args) w in
      (
        act_on-done action_name hosts hosts_in_error w',
        act_on_through action_name hosts hosts_in_error w',
      )
