-- ===== src/Provision/Distributions/Upgrade.antt =====
-- The order of the steps of an upgrade of boot2podman.
use p2box.Base.{String, ◌≡◌}
use p2box.State.{running, stopped}
use p2box.Go.{ok}
use p2box.Go.Laws.{>>=-eq-ok}
use p2box.Wait.{wait_for}
use p2box.Drivers.{Driver, machine_in_state}
use p2box.Provision.{PackageAction}
use p2box.Provision.Distributions.{Workplace, upgrade_iso, boot2podman_package}

module _ {W : Type 0} (place : Workplace W) (d : Driver W) (w : W) where
  -- The worlds between the steps.
  abbrev pub asked : W
  asked = (place.url_of_driver d w).1

  abbrev pub stopping : W
  stopping = (d.stop asked).1

  abbrev pub idle : W
  idle = (wait_for place.system.sleep (machine_in_state d stopped) stopping).1

  abbrev pub asked_name : W
  asked_name = (d.get_machine_name idle).1

  abbrev pub copied : String → W
  copied url = (place.copy_iso_to_machine_dir url (d.get_machine_name idle).0 asked_name).1

  abbrev pub starting : String → W
  starting url = (d.start (copied url)).1

  -- An upgrade succeeds only if the driver stopped the machine and it was seen stopped, then the
  -- image of its driver's URL was copied to the machine's directory, and then the driver started
  -- the machine and it was seen running.
  pub boot2podman_package-ok :
      (boot2podman_package place d "podman" PackageAction.upgrade w).0 ≡ ok tt
      → (url : String) × ((place.url_of_driver d w).0 ≡ ok url)
        × ((d.stop asked).0 ≡ ok tt)
        × ((wait_for place.system.sleep (machine_in_state d stopped) stopping).0 ≡ ok tt)
        × ((place.copy_iso_to_machine_dir url (d.get_machine_name idle).0 asked_name).0 ≡ ok tt)
        × ((d.start (copied url)).0 ≡ ok tt)
        × ((wait_for place.system.sleep (machine_in_state d running) (starting url)).0 ≡ ok tt)
  unfolding boot2podman_package upgrade_iso
  boot2podman_package-ok k =
      let (url, a, k1) = >>=-eq-ok (place.url_of_driver d) _ w k in
      let (u1, b, k2) = >>=-eq-ok d.stop _ asked k1 in
      let (u2, c, k3) =
        >>=-eq-ok (wait_for place.system.sleep (machine_in_state d stopped)) _ stopping k2 in
      let (u3, e, k4) =
        >>=-eq-ok (place.copy_iso_to_machine_dir url (d.get_machine_name idle).0) _ asked_name k3 in
      let (u4, f, k5) = >>=-eq-ok d.start _ (copied url) k4 in (url, a, b, c, e, f, k5)
