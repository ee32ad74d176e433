-- ===== src/Host.antt =====
-- libmachine/host/host.go: a machine of the store, and the actions on it.
pub mod Action
use p2box.Base.{ℕ, ℤ, Bool, true, String, Option, none, some, List, not, if◌then◌else◌}
use p2box.State.{State, running, stopped, state_eq}
use p2box.Go.{Error, host_already_in_state, panic, Result, ok, err, Go, pure, fail, ◌>>=◌, ◌>>◌}
use p2box.Wait.{wait_for}
use p2box.Drivers.{
  SshClient, auth_of_key_path, Driver, System, call, checked_state, machine_in_state,
  run_ssh_command_from_driver,
}
use p2box.Provision
use p2box.Provision.{
  AuthOptions, EngineOptions, PackageAction, Provisioner, Registered, detect_provisioner,
}

-- `none` stands for a nil pointer.
pub record Options : Type 0 where
  pub driver : String
  pub memory : ℤ
  pub disk : ℤ
  pub engine_options : Option EngineOptions
  pub auth_options : Option AuthOptions

pub record Host (W : Type 0) : Type 0 where
  pub config_version : ℕ
  pub driver : Driver W
  pub driver_name : String
  pub host_options : Option Options
  pub name : String
  pub raw_driver : String

abbrev pub nil_pointer : Error
nil_pointer = panic "invalid memory address or nil pointer dereference"

-- `*p`
abbrev pub deref : {W A : Type 0} → Option A → Go W A
deref none = fail nil_pointer
deref (some a) = pure a

module _ {W : Type 0} (sys : System W) (h : Host W) where
  unfoldable pub run_ssh_command : String → Go W String
  run_ssh_command command = run_ssh_command_from_driver sys h.driver command

  unfoldable pub run_action_for_state : Go W Unit → State → Go W Unit
  run_action_for_state action desired_state = do
    already ← call (machine_in_state h.driver desired_state)
    if already
        then fail (host_already_in_state h.name desired_state)
        else do action; wait_for sys.sleep (machine_in_state h.driver desired_state)

  unfoldable pub stop : Go W Unit
  stop = run_action_for_state h.driver.stop stopped

  unfoldable pub kill : Go W Unit
  kill = run_action_for_state h.driver.kill stopped

  -- `StandardSSHClientCreator.CreateSSHClient`
  unfoldable pub create_ssh_client : Go W (SshClient W)
  create_ssh_client = do
    addr ← h.driver.get_ssh_hostname
    port ← h.driver.get_ssh_port
    auth ← auth_of_key_path h.driver
    username ← call h.driver.get_ssh_username
    sys.new_client username addr port auth

  unfoldable pub url : Go W String
  url = h.driver.get_url

-- `Host.AuthOptions`
unfoldable pub auth_options : {W : Type 0} → Host W → Option AuthOptions
auth_options h = elim h.host_options [ none ↦ none | some options ↦ options.auth_options ]

module _ {W : Type 0} (sys : System W) (provisioners : List (Registered W)) (h : Host W) where
  unfoldable pub wait_for_podman : Go W Unit
  wait_for_podman = do
    provisioner ← detect_provisioner sys provisioners h.driver
    Provision.wait_for_podman sys provisioner

  unfoldable pub start : Go W Unit
  start = do run_action_for_state sys h h.driver.start running; wait_for_podman

  -- The branch of `restart` for a machine that runs.
  abbrev restart_running : Go W Unit
  restart_running = do h.driver.restart; wait_for sys.sleep (machine_in_state h.driver running)

  -- The second query is made only where the machine is not stopped.
  abbrev restart_action : Bool → Go W Unit
  restart_action is_stopped = if is_stopped then start else do
    is_running ← call (machine_in_state h.driver running)
    if is_running then restart_running else pure tt

  unfoldable pub restart : Go W Unit
  restart = do
    is_stopped ← call (machine_in_state h.driver stopped)
    restart_action is_stopped
    wait_for_podman

  unfoldable pub upgrade : Go W Unit
  upgrade = do
    machine_state ← checked_state h.driver
    if not (state_eq machine_state running) then start else pure tt
    provisioner ← detect_provisioner sys provisioners h.driver
    provisioner.package_action "podman" PackageAction.upgrade

  -- `*h.HostOptions.AuthOptions` and `*h.HostOptions.EngineOptions`
  abbrev pub provision_with : Provisioner W → Go W Unit
  provision_with provisioner = do
    options ← deref h.host_options
    auth ← deref options.auth_options
    engine ← deref options.engine_options
    provisioner.provision auth engine

  unfoldable pub provision : Go W Unit
  provision = do
    provisioner ← detect_provisioner sys provisioners h.driver
    provision_with provisioner

  -- `ConfigureAuth` has the body of `Provision`.
  unfoldable pub configure_auth : Go W Unit
  configure_auth = do
    provisioner ← detect_provisioner sys provisioners h.driver
    provision_with provisioner
