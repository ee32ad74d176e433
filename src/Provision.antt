-- ===== src/Provision.antt =====
-- libmachine/provision: finding and running the provisioner of a machine (provisioner.go,
-- utils.go, errors.go), with the options of libmachine/auth and libmachine/engine.
pub mod Release
pub mod Certificates
pub mod Distributions
use p2box.Go.{
  panic, Error, message, wrap, daemon_available, Result, ok, err, Go, pure, fail, ◌>>=◌, ◌>>◌,
  wrap_with,
}
use p2box.Base.{
  ℤ, Bool, true, false, String, codes, List, [], ◌∷◌, Option, none, some, str_eq, not,
  if◌then◌else◌, ◌<>◌,
}
use p2box.Wait.{WaitTest, wait_for_specific}
use p2box.Drivers.{
  Driver, System, Method, call, run_ssh_command_from_driver, wait_for_ssh, succeeded,
}
use p2box.Provision.Release.{OsRelease, new_os_release}

-- auth.Options
pub record AuthOptions : Type 0 where
  pub cert_dir : String
  pub ca_cert_path : String
  pub ca_private_key_path : String
  pub ca_cert_remote_path : String
  pub server_cert_path : String
  pub server_key_path : String
  pub client_key_path : String
  pub server_cert_remote_path : String
  pub server_key_remote_path : String
  pub client_cert_path : String
  pub server_cert_sans : List String
  pub store_path : String

-- engine.Options
pub record EngineOptions : Type 0 where
  pub arbitrary_flags : List String
  pub dns : List String
  pub graph_dir : String
  pub env : List String
  pub ipv6 : Bool
  pub insecure_registry : List String
  pub labels : List String
  pub log_level : String
  pub storage_driver : String
  pub selinux_enabled : Bool
  pub tls_verify : Bool
  pub registry_mirror : List String
  pub install_url : String

-- pkgaction.PackageAction
pub data PackageAction : Type 0 where
  install remove upgrade purge : PackageAction

-- What the callers here use of the interface `Provisioner`.
pub record Provisioner (W : Type 0) : Type 0 where
  pub ssh_command : String → Go W String
  pub package_action : String → PackageAction → Go W Unit
  pub compatible_with_host : Method W Bool
  pub provision : AuthOptions → EngineOptions → Go W Unit
  pub set_os_release_info : OsRelease → W → W

-- `RegisteredProvisioner.New`
abbrev pub Registered : Type 0 → Type 0
Registered W = Driver W → Provisioner W

abbrev pub detection_failed : Error
detection_failed = message "OS type not recognized"

module _ {W : Type 0} where
  -- The loop over the registered provisioners, in the order in which the map gives them.
  unfoldable pub first_compatible :
      List (Registered W) → Driver W → OsRelease → Go W (Provisioner W)
  first_compatible [] d info w = (err detection_failed, w)
  first_compatible (new ∷ rest) d info w =
      let p = new d in
      let (compatible, w') = p.compatible_with_host (p.set_os_release_info info w) in
      let others = first_compatible rest d info w' in if compatible then (ok p, w') else others

  -- `none` is a panic while the file is read.
  abbrev os_release_of : Option OsRelease → Go W OsRelease
  os_release_of none = fail (panic "slice bounds out of range")
  os_release_of (some info) = pure info

module _ {W : Type 0} (sys : System W) (provisioners : List (Registered W)) (d : Driver W) where
  unfoldable pub detect_provisioner : Go W (Provisioner W)
  detect_provisioner = do
    wait_for_ssh sys d
    os_release_out ←
        wrap_with (wrap "Error getting SSH command")
          (run_ssh_command_from_driver sys d "cat /etc/os-release")
    info ← os_release_of (new_os_release (codes os_release_out))
    first_compatible provisioners d info

module _ {W : Type 0} (sys : System W) (p : Provisioner W) where
  unfoldable pub check_daemon_up : WaitTest W
  check_daemon_up w =
      let (r, w') = p.ssh_command "sudo test -S /run/podman/io.podman" w in (succeeded r, w')

  -- 10 attempts, 3 seconds apart.
  unfoldable pub wait_for_podman : Go W Unit
  wait_for_podman = wrap_with daemon_available (wait_for_specific sys.sleep check_daemon_up 10 3000)
