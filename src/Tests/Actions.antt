-- ===== src/Tests/Actions.antt =====
-- Actions, a creation and a removal in the lab.
use p2box.Client.Create.{IsSetUp, create-ok}
use p2box.Commands.Rm.{cmd_rm_done_iff, AllRemoved}
use p2box.Host.{auth_options, run_action_for_state}
use p2box.Base.{◌↔◌, ◌≡◌, refl, true, false, [], ◌∷◌, none, ◌≢◌}
use p2box.State.{running}
use p2box.Go.{ok, pure}
use p2box.Wait.Polls.{Passed}
use p2box.Drivers.{machine_in_state}
use p2box.Host.Action.{reported, run_action_for_state-ok}
use p2box.Persist.Hosts.{load_hosts}
use p2box.Commands.Actions.{run_action}
use p2box.Commands.Done.{IsThrough, run_action_done_iff}
use p2box.Client.{create}
use p2box.Commands.{cmd_rm, done}
use p2box.Tests.Lab.{idle, empty_lab, become, lab_driver, system, host_of, store_of, client_of}

run_action_for_state-ok_example :
    (reported lab_driver idle ≢ running)
    × ((become running idle).0 ≡ ok tt)
    × Passed system.sleep
        (machine_in_state lab_driver running)
        60
        3000
        (become running idle).1
        (run_action_for_state system (host_of lab_driver) (become running) running idle).1
unfolding run_action_for_state machine_in_state p2box.Wait.wait_for p2box.Wait.wait_for_specific
run_action_for_state-ok_example =
    run_action_for_state-ok system (host_of lab_driver) (become running) running idle refl

create-ok_example :
    ((client_of lab_driver).bootstrap_certificates (auth_options (host_of lab_driver)) empty_lab).0
      ≡ ok tt
    × ((lab_driver.pre_create_check empty_lab).0 ≡ ok tt)
    × (((store_of lab_driver).save (host_of lab_driver) empty_lab).0 ≡ ok tt)
    × ((lab_driver.create (record empty_lab { stored = "box" ∷ [] })).0 ≡ ok tt)
    × (((store_of lab_driver).save (host_of lab_driver) (record idle { machine = running })).0
        ≡ ok tt)
    × IsSetUp (client_of lab_driver) (host_of lab_driver) empty_lab
unfolding create p2box.Client.perform_create
create-ok_example = create-ok (client_of lab_driver) (host_of lab_driver) empty_lab refl

cmd_rm_done_iff_example :
    ((cmd_rm (store_of lab_driver) ("box" ∷ []) (record { force = false; y = true }) none idle).0
      ≡ done)
    ↔ AllRemoved (store_of lab_driver) ("box" ∷ []) idle
cmd_rm_done_iff_example = cmd_rm_done_iff (store_of lab_driver) "box" [] none idle

run_action_done_iff_example :
    ((run_action system [] (λ a. pure tt) (λ hs. hs) (store_of lab_driver) "ip" ("box" ∷ []) idle).0
      ≡ done)
    ↔ IsThrough system []
        (λ a. pure tt)
        (λ hs. hs)
        (store_of lab_driver)
        "ip"
        (load_hosts (store_of lab_driver) ("box" ∷ []) idle).0
        (load_hosts (store_of lab_driver) ("box" ∷ []) idle).1
run_action_done_iff_example =
    run_action_done_iff system [] (λ a. pure tt) (λ hs. hs) (store_of lab_driver) "ip" "box" [] idle
