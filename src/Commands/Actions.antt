-- ===== src/Commands/Actions.antt =====
-- commands/commands.go: one action on many machines.
use p2box.Base.{String, List, [], ◌∷◌, Option, str_eq, if◌then◌else◌}
use p2box.Go.{Error, message, wrap, panic, Result, ok, err, Go, pure, fail, ◌>>=◌, ◌>>◌, wrap_with}
use p2box.Drivers.{System}
use p2box.Provision.{AuthOptions, Registered}
use p2box.Host.{Host, auth_options, configure_auth, start, stop, restart, kill, upgrade, provision}
use p2box.Persist.Hosts.{Store, load_hosts}
use p2box.Commands.{Outcome, done, failed, joined, target_host, collect}

abbrev pub host_load : Error
host_load = message "All specified hosts had errors loading their configuration"

-- `order` gives the machines in the order in which their goroutines run: an action is one step,
-- and its error arrives in that order.
module _ {W : Type 0} (sys : System W) (provisioners : List (Registered W))
    (bootstrap_certificates : Option AuthOptions → Go W Unit)
    (order : List (Host W) → List (Host W)) (api : Store W (Host W)) where
  -- `Host.ConfigureAllAuth`
  unfoldable pub configure_all_auth : Host W → Go W Unit
  configure_all_auth h = do
    bootstrap_certificates (auth_options h)
    configure_auth sys provisioners h

  unfoldable pub print_ip : Host W → Go W Unit
  print_ip h = do ip ← wrap_with (wrap "Error getting IP address") h.driver.get_ip; pure tt

  -- The call of a missing entry of the map panics.
  unfoldable pub machine_command : String → Host W → Go W Unit
  machine_command action_name h =
      if str_eq action_name "configureAuth"
      then configure_auth sys provisioners h
      else if str_eq action_name "configureAllAuth"
      then configure_all_auth h
      else if str_eq action_name "start"
      then start sys provisioners h
      else if str_eq action_name "stop"
      then stop sys h
      else if str_eq action_name "restart"
      then restart sys provisioners h
      else if str_eq action_name "kill"
      then kill sys h
      else if str_eq action_name "upgrade"
      then upgrade sys provisioners h
      else if str_eq action_name "ip"
      then print_ip h
      else if str_eq action_name "provision"
      then provision sys provisioners h
      else fail (panic "invalid memory address or nil pointer dereference")

  -- The errors that arrive, behind those so far.
  unfoldable pub receive : String → List (Host W) → List Error → W → List Error × W
  receive action_name [] errs w = (errs, w)
  receive action_name (h ∷ machines) errs w =
      let (r, w') = machine_command action_name h w in
      receive action_name machines (collect (λ e. e) r errs) w'

  unfoldable pub run_action_foreach_machine : String → List (Host W) → W → List Error × W
  run_action_foreach_machine action_name machines w = receive action_name (order machines) [] w

  unfoldable pub save_hosts : List (Host W) → W → Outcome × W
  save_hosts [] w = (done, w)
  save_hosts (h ∷ hosts) w = elim (api.save h w).0 [
    | err e ↦ (failed (wrap "Error saving host to store" e), (api.save h w).1)
    | ok u ↦ save_hosts hosts (api.save h w).1
  ]

  abbrev pub save_unless : List Error → List (Host W) → W → Outcome × W
  save_unless [] hosts w = save_hosts hosts w
  save_unless (e ∷ errs) hosts w = (joined (e ∷ errs), w)

  -- The part of `runAction` after the hosts are loaded.
  unfoldable pub act_on : String → List (Host W) → List (String × Error) → W → Outcome × W
  act_on action_name hosts (e ∷ hosts_in_error) w = (joined (errors_of (e ∷ hosts_in_error)), w)
    where
      errors_of : List (String × Error) → List Error
      errors_of [] = []
      errors_of ((name, error) ∷ rest) = error ∷ errors_of rest
  act_on action_name [] [] w = (failed host_load, w)
  act_on action_name (h ∷ hosts) [] w =
      let (errs, w') = run_action_foreach_machine action_name (h ∷ hosts) w in
      save_unless errs (h ∷ hosts) w'

  abbrev pub load_and_act : String → List String → W → Outcome × W
  load_and_act action_name hosts_to_load w =
      let ((hosts, hosts_in_error), w') = load_hosts api hosts_to_load w in
      act_on action_name hosts hosts_in_error w'

  abbrev pub act_on_target : String → Result String → W → Outcome × W
  act_on_target action_name (err e) w = (failed e, w)
  act_on_target action_name (ok target) w = load_and_act action_name (target ∷ []) w

  unfoldable pub run_action : String → List String → W → Outcome × W
  run_action action_name [] w = let (r, w') = target_host api [] w in act_on_target action_name r w'
  run_action action_name (arg ∷ args) w = load_and_act action_name (arg ∷ args) w
