-- ===== src/Tests/Distributions.antt =====
-- The provisioners, on a driver that does nothing.
use p2box.Base.{ℤ, String, codes, [], ◌∷◌, none, ◌≡◌, refl, inl, inr}
use p2box.State.{State, running, stopped}
use p2box.Go.{ok, pure}
use p2box.Wait.{wait_for}
use p2box.Drivers.{Driver, machine_in_state}
use p2box.Provision.{PackageAction, first_compatible}
use p2box.Provision.Release.{OsRelease, empty}
use p2box.Provision.Distributions.{
  Distribution, red_hat, centos, fedora, boot2podman, Workplace, registered_provisioners,
  new_provisioner,
}
use p2box.Provision.Distributions.Detection.{Among, first_compatible-provisioner_for}
use p2box.Provision.Distributions.Upgrade.{
  asked, stopping, asked_name, copied, starting, boot2podman_package-ok,
}

-- The state of the machine, and what is known of its system.
pub record World : Type 0 where
  pub machine : State
  pub info : OsRelease

abbrev plain_driver : Driver World
plain_driver = record {
  create = pure tt;
  driver_name = λ w. ("virtualbox", w);
  get_create_flags = λ w. ([], w);
  get_ip = pure "10.0.0.2";
  get_machine_name = λ w. ("box", w);
  get_ssh_hostname = pure "10.0.0.2";
  get_ssh_key_path = λ w. ("", w);
  get_ssh_port = pure (ℤ.pos 22);
  get_ssh_username = λ w. ("tc", w);
  get_url = pure "";
  get_state = λ w. ((w.machine, none), w);
  kill = pure tt;
  pre_create_check = pure tt;
  remove = pure tt;
  restart = pure tt;
  set_config_from_flags = λ flags. pure tt;
  start = λ w. (ok tt, record w { machine = running });
  stop = λ w. (ok tt, record w { machine = stopped });
}

abbrev place : Workplace World
place = record {
  system = record {
    sleep = λ ms w. w;
    new_client = λ user host port a. pure (λ text w. (("", none), w));
  };
  cell = record { get = λ w. w.info; put = λ info w. record w { info = info } };
  with_tty = λ client. client;
  quote = λ s. s;
  auth_work = λ d a dir command. record {
    driver = d;
    auth_options = a;
    engine_options_dir = dir;
    ssh_command = command;
    copy_file = λ from to. pure tt;
    read_file = λ file. pure "";
    generate_cert = λ options. pure tt;
    username = "";
    join = λ names. "";
    path_join = λ names. "";
  };
  url_of_driver = λ d. pure "";
  copy_iso_to_machine_dir = λ url name. pure tt;
}

abbrev running_machine : World
running_machine = record { machine = running; info = empty }

abbrev fedora_release : OsRelease
fedora_release = record empty { id = codes "fedora" }

all_four : (k : Distribution) → Among k (centos ∷ fedora ∷ boot2podman ∷ red_hat ∷ [])
all_four centos = inl refl
all_four fedora = inr (inl refl)
all_four boot2podman = inr (inr (inl refl))
all_four red_hat = inr (inr (inr (inl refl)))

first_compatible-provisioner_for_example :
    (first_compatible
      (registered_provisioners place (centos ∷ fedora ∷ boot2podman ∷ red_hat ∷ []))
      plain_driver
      fedora_release
      running_machine).0
    ≡ ok (new_provisioner place fedora plain_driver)
first_compatible-provisioner_for_example =
    first_compatible-provisioner_for place plain_driver fedora_release
      (centos ∷ fedora ∷ boot2podman ∷ red_hat ∷ []) running_machine (λ info w. refl) all_four

boot2podman_package-ok_example :
    (url : String) × ((place.url_of_driver plain_driver running_machine).0 ≡ ok url)
    × ((plain_driver.stop (asked place plain_driver running_machine)).0 ≡ ok tt)
    × ((wait_for place.system.sleep
          (machine_in_state plain_driver stopped)
          (stopping place plain_driver running_machine)).0
        ≡ ok tt)
    × ((place.copy_iso_to_machine_dir url "box" (asked_name place plain_driver running_machine)).0
        ≡ ok tt)
    × ((plain_driver.start (copied place plain_driver running_machine url)).0 ≡ ok tt)
    × ((wait_for place.system.sleep
          (machine_in_state plain_driver running)
          (starting place plain_driver running_machine url)).0
        ≡ ok tt)
unfolding p2box.Provision.Distributions.boot2podman_package
    p2box.Provision.Distributions.upgrade_iso wait_for p2box.Wait.wait_for_specific machine_in_state
boot2podman_package-ok_example = boot2podman_package-ok place plain_driver running_machine refl
