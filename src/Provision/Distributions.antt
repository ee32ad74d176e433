-- ===== src/Provision/Distributions.antt =====
-- libmachine/provision: the provisioners that are registered (redhat.go, centos.go, fedora.go,
-- generic.go, systemd.go, redhat_ssh_commander.go, boot2podman.go).
pub mod Detection
pub mod Upgrade
use p2box.Base.{
  Bool, true, false, String, Text, codes, text_eq, List, [], ◌∷◌, Option, none, some, ◌<>◌, str_eq,
  ◌&&◌, ◌||◌, if◌then◌else◌,
}
use p2box.State.{running, stopped}
use p2box.Go.{Error, ssh_command, Result, ok, err, Go, pure, fail, ◌>>=◌, ◌>>◌}
use p2box.Wait.{wait_for}
use p2box.Drivers.{
  Driver, System, SshClient, call, get_ssh_client_from_driver, machine_in_state,
  run_ssh_command_from_driver,
}
use p2box.Provision.{AuthOptions, EngineOptions, PackageAction, Provisioner}
use p2box.Provision.Release.{OsRelease}
use p2box.Provision.Certificates.{
  AuthWork, make_engine_options_dir, set_remote_auth_options, configure_auth_with,
}

-- serviceaction.ServiceAction
pub data ServiceAction : Type 0 where
  restart start stop enable disable daemon_reload : ServiceAction

abbrev pub service_action_name : ServiceAction → String
service_action_name restart = "restart"
service_action_name start = "start"
service_action_name stop = "stop"
service_action_name enable = "enable"
service_action_name disable = "disable"
service_action_name daemon_reload = "daemon-reload"

-- The field `OsReleaseInfo` of a provisioner, in the world.
pub record Cell (W : Type 0) : Type 0 where
  pub get : W → OsRelease
  pub put : OsRelease → W → W

-- What the provisioners work with. `with_tty` is a client with the argument "-tt", or a pty;
-- `quote` the verb "%q"; `auth_work` the files and the certificates of a machine with a driver, a
-- directory of the engine and a way to run commands; `url_of_driver` reads the field Boot2PodmanURL
-- of the driver's JSON text.
pub record Workplace (W : Type 0) : Type 0 where
  pub system : System W
  pub cell : Cell W
  pub with_tty : SshClient W → SshClient W
  pub quote : String → String
  pub auth_work : Driver W → AuthOptions → String → (String → Go W String) → AuthWork W
  pub url_of_driver : Driver W → Go W String
  pub copy_iso_to_machine_dir : String → String → Go W Unit

module _ {W : Type 0} (place : Workplace W) (d : Driver W) where
  -- `RedHatSSHCommander`
  unfoldable pub red_hat_ssh_command : String → Go W String
  red_hat_ssh_command args = do
    client ← get_ssh_client_from_driver place.system d
    answer ← call (place.with_tty client args)
    elim answer.1 [ none ↦ pure answer.0 | some error ↦ fail (ssh_command args error answer.0) ]

  abbrev pub needs_reload : ServiceAction → Bool
  needs_reload start = true
  needs_reload restart = true
  needs_reload _ = false

  abbrev pub run_command : (String → Go W String) → String → Go W Unit
  run_command command text = do out ← command text; pure tt

  -- `SystemdProvisioner.Service`
  unfoldable pub systemd_service : String → ServiceAction → Go W Unit
  systemd_service name action = do
    if needs_reload action
        then run_command red_hat_ssh_command "sudo systemctl daemon-reload"
        else pure tt
    run_command red_hat_ssh_command
        ("sudo systemctl -f " <> service_action_name action <> " " <> name)

  abbrev pub yum_action : PackageAction → String
  yum_action PackageAction.install = "install"
  yum_action PackageAction.remove = "remove"
  yum_action PackageAction.purge = "remove"
  yum_action PackageAction.upgrade = "upgrade"

  unfoldable pub red_hat_package : String → PackageAction → Go W Unit
  red_hat_package name action =
      run_command red_hat_ssh_command ("sudo -E yum " <> yum_action action <> " -y " <> name)

  unfoldable pub red_hat_set_hostname : String → Go W Unit
  red_hat_set_hostname hostname = do
    run_command red_hat_ssh_command (
        "sudo hostname "
        <> hostname
        <> " && echo "
        <> place.quote hostname
        <> " | sudo tee /etc/hostname")
    run_command red_hat_ssh_command (
        "if grep -xq 127.0.1.1.* /etc/hosts; then sudo sed -i 's/^127.0.1.1.*/127.0.1.1 "
        <> hostname <> "/g' /etc/hosts; else echo '127.0.1.1 " <> hostname
        <> "' | sudo tee -a /etc/hosts; fi")

  abbrev pub install_packages : List String → Go W Unit
  install_packages [] w = (ok tt, w)
  install_packages (pkg ∷ packages) w =
      (red_hat_package pkg PackageAction.install >>= λ u. install_packages packages) w

  -- The options with the paths on the machine, which the certificates then use.
  abbrev pub with_remote_paths : AuthWork W → AuthWork W
  with_remote_paths p = record p { auth_options = set_remote_auth_options p }

  -- The directory of the engine is empty, and there are no base packages.
  unfoldable pub red_hat_provision : AuthOptions → EngineOptions → Go W Unit
  red_hat_provision auth_options engine_options = do
    name ← call d.get_machine_name
    red_hat_set_hostname name
    install_packages []
    configure_auth_with (with_remote_paths (place.auth_work d auth_options "" red_hat_ssh_command))

  abbrev pub boot2podman_ssh_command : String → Go W String
  boot2podman_ssh_command args = run_ssh_command_from_driver place.system d args

  unfoldable pub boot2podman_service : String → ServiceAction → Go W Unit
  boot2podman_service name action =
      run_command boot2podman_ssh_command
        ("sudo /etc/init.d/" <> name <> " " <> service_action_name action)

  unfoldable pub upgrade_iso : Go W Unit
  upgrade_iso = do
    boot2podman_url ← place.url_of_driver d
    d.stop
    wait_for place.system.sleep (machine_in_state d stopped)
    machine_name ← call d.get_machine_name
    place.copy_iso_to_machine_dir boot2podman_url machine_name
    d.start
    wait_for place.system.sleep (machine_in_state d running)

  abbrev pub is_upgrade : PackageAction → Bool
  is_upgrade PackageAction.upgrade = true
  is_upgrade _ = false

  unfoldable pub boot2podman_package : String → PackageAction → Go W Unit
  boot2podman_package name action =
      if str_eq name "podman" && is_upgrade action then upgrade_iso else pure tt

  unfoldable pub boot2podman_set_hostname : String → Go W Unit
  boot2podman_set_hostname hostname = run_command boot2podman_ssh_command (
      "sudo /usr/bin/sethostname "
      <> hostname
      <> " && sudo mkdir -p /var/lib/boot2podman/etc && echo "
      <> place.quote hostname
      <> " | sudo tee /var/lib/boot2podman/etc/hostname")

  unfoldable pub boot2podman_provision : AuthOptions → EngineOptions → Go W Unit
  boot2podman_provision auth_options engine_options = do
    let work = place.auth_work d auth_options "/var/lib/boot2podman" boot2podman_ssh_command
    name ← call d.get_machine_name
    boot2podman_set_hostname name
    make_engine_options_dir work
    configure_auth_with (with_remote_paths work)

-- The names that are registered.
pub data Distribution : Type 0 where
  red_hat centos fedora boot2podman : Distribution

-- Whether a distribution is the one of an ID in /etc/os-release.
abbrev pub accepts : Distribution → Text → Bool
accepts red_hat id = text_eq id (codes "rhel")
accepts centos id = text_eq id (codes "centos")
accepts fedora id = text_eq id (codes "fedora")
accepts boot2podman id = text_eq id (codes "boot2podman") || text_eq id (codes "tinycore")

module _ {W : Type 0} (place : Workplace W) where
  abbrev pub compatible : Distribution → W → Bool × W
  compatible k w = (accepts k (place.cell.get w).id, w)

  -- `NewRedHatProvisioner` of an ID
  abbrev pub new_red_hat : Distribution → Driver W → Provisioner W
  new_red_hat k d = record {
    ssh_command = red_hat_ssh_command place d;
    package_action = red_hat_package place d;
    compatible_with_host = compatible k;
    provision = red_hat_provision place d;
    set_os_release_info = place.cell.put;
  }

  abbrev pub new_boot2podman : Driver W → Provisioner W
  new_boot2podman d = record {
    ssh_command = boot2podman_ssh_command place d;
    package_action = boot2podman_package place d;
    compatible_with_host = compatible boot2podman;
    provision = boot2podman_provision place d;
    set_os_release_info = place.cell.put;
  }

  unfoldable pub new_provisioner : Distribution → Driver W → Provisioner W
  new_provisioner boot2podman d = new_boot2podman d
  new_provisioner red_hat d = new_red_hat red_hat d
  new_provisioner centos d = new_red_hat centos d
  new_provisioner fedora d = new_red_hat fedora d

  -- The registered provisioners, in an order of their map.
  abbrev pub registered_provisioners : List Distribution → List (Driver W → Provisioner W)
  registered_provisioners [] = []
  registered_provisioners (k ∷ ks) = new_provisioner k ∷ registered_provisioners ks
