-- ===== src/Client.antt =====
-- libmachine/libmachine.go: creating a machine and keeping it in the store.
pub mod Create
pub mod Hosts
use p2box.Base.{true, Bool, String, Option, none, some, List, str_eq, ◌||◌, if◌then◌else◌}
use p2box.State.{running}
use p2box.Go.{
  Error, wrap, during_pre_create, Result, ok, err, Go, pure, fail, ◌>>=◌, ◌>>◌, wrap_with,
}
use p2box.Wait.{wait_for}
use p2box.Drivers.{SshClient, Driver, System, call, machine_in_state}
use p2box.Provision.{AuthOptions, Registered, detect_provisioner}
use p2box.Host.{Host, auth_options, provision_with, create_ssh_client}
use p2box.Persist.Hosts.{Store}

-- What the client works with: the clock and the ssh clients, the registered provisioners, the
-- store, and `cert.BootstrapCertificates`.
pub record Client (W : Type 0) : Type 0 where
  pub system : System W
  pub provisioners : List (Registered W)
  pub store : Store W (Host W)
  pub bootstrap_certificates : Option AuthOptions → Go W Unit

-- `client.Output("podman --version")`, whose text is only logged
abbrev pub asked_version : {W : Type 0} → SshClient W → Go W Unit
asked_version client = do
  answer ← call (client "podman --version")
  elim answer.1 [ none ↦ pure tt | some e ↦ fail (wrap "Error getting podman version" e) ]

module _ {W : Type 0} (api : Client W) (h : Host W) where
  -- The part of `performCreate` after the check of the driver's name.
  unfoldable pub set_up : Go W Unit
  set_up = do
    wrap_with (wrap "Error waiting for machine to be running")
        (wait_for api.system.sleep (machine_in_state h.driver running))
    provisioner ←
        wrap_with (wrap "Error detecting OS")
          (detect_provisioner api.system api.provisioners h.driver)
    wrap_with (wrap "Error running provisioning")
        (provision_with api.system api.provisioners h provisioner)
    client ← wrap_with (wrap "Error creating SSH client") (create_ssh_client api.system h)
    asked_version client

  -- The name is asked for a second time where it is not "none".
  abbrev pub needs_no_set_up : Go W Bool
  needs_no_set_up = do
    name ← call h.driver.driver_name
    if str_eq name "none"
        then pure true
        else do name' ← call h.driver.driver_name; pure (str_eq name' "ci-test")

  unfoldable pub perform_create : Go W Unit
  perform_create = do
    wrap_with (wrap "Error in driver during machine creation") h.driver.create
    wrap_with (wrap "Error saving host to store after attempting creation") (api.store.save h)
    ready ← needs_no_set_up
    if ready then pure tt else set_up

  unfoldable pub create : Go W Unit
  create = do
    wrap_with (wrap "Error generating certificates") (api.bootstrap_certificates (auth_options h))
    wrap_with during_pre_create h.driver.pre_create_check
    wrap_with (wrap "Error saving host to store before attempting creation") (api.store.save h)
    wrap_with (wrap "Error creating machine") perform_create
