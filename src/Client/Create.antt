-- ===== src/Client/Create.antt =====
-- The order of the steps of a creation, and what an error leaves behind.
use p2box.Provision.{Provisioner, detect_provisioner}
use p2box.Drivers.{SshClient, machine_in_state}
use p2box.State.{running}
use p2box.Wait.{wait_for}
use p2box.Host.{provision_with, create_ssh_client, Host, auth_options}
use p2box.Base.{Option-cases, Bool-cases, eq_iff, ◌⊎◌, inl, inr, none, str_eq, if◌then◌else◌, ◌≡◌}
use p2box.Go.{pure, ◌>>=◌, ok, err, wrap, during_pre_create, Error, map_err, wrap_with}
use p2box.Client.{needs_no_set_up, set_up, asked_version, Client, create, perform_create}
use p2box.Go.Laws.{>>=-eq-ok, wrap_with-eq-ok}

-- An error that is no panic, so that a caller wraps it.
abbrev pub IsValue : Error → Type 0
IsValue e = (f : Error → Error) → map_err {A = Unit {0}} f (err e) ≡ err (f e)

module _ {W : Type 0} (api : Client W) (h : Host W) (w : W) where
  -- The worlds between the steps.
  abbrev pub bootstrapped : W
  bootstrapped = (api.bootstrap_certificates (auth_options h) w).1

  abbrev pub checked : W
  checked = (h.driver.pre_create_check bootstrapped).1

  abbrev pub saved : W
  saved = (api.store.save h checked).1

  abbrev pub created : W
  created = (h.driver.create saved).1

  abbrev pub saved_again : W
  saved_again = (api.store.save h created).1

  -- If the check before the creation fails, the creation fails with its error and does nothing
  -- after it: the host is not saved and the driver is not asked to create it.
  pub create_check_fails :
      (e : Error)
      → IsValue e
      → (api.bootstrap_certificates (auth_options h) w).0 ≡ ok tt
      → (h.driver.pre_create_check bootstrapped).0 ≡ err e
      → create api h w ≡ (err (during_pre_create e), checked)
  unfolding create
  create_check_fails e v b c = rw (b, c, v during_pre_create)

  -- If the driver fails to create the machine, the creation fails with its error wrapped twice,
  -- and nothing is undone: the host that was saved before stays in the store.
  pub create_driver_fails :
      (e : Error)
      → IsValue e
      → (api.bootstrap_certificates (auth_options h) w).0 ≡ ok tt
      → (h.driver.pre_create_check bootstrapped).0 ≡ ok tt
      → (api.store.save h checked).0 ≡ ok tt
      → (h.driver.create saved).0 ≡ err e
      → create api h w ≡ (
        err (wrap "Error creating machine" (wrap "Error in driver during machine creation" e)),
        created,
      )
  unfolding create perform_create
  create_driver_fails e v b c s d =
      rw (b, c, s, d, v (wrap "Error in driver during machine creation"))

  -- The world once the name of the driver was asked for.
  abbrev pub name_asked : W
  name_asked = (h.driver.driver_name saved_again).1

  -- The worlds between the steps of the set-up from a world: the wait, the detection, the
  -- provisioning by what was detected, the ssh client, and the command.
  abbrev pub IsSetUpBy : W → Type 0
  IsSetUpBy v =
      (provisioner : Provisioner W) × (client : SshClient W) × (let w1 =
          (wait_for api.system.sleep (machine_in_state h.driver running) v).1 in
        let w2 = (detect_provisioner api.system api.provisioners h.driver w1).1 in
        let w3 = (provision_with api.system api.provisioners h provisioner w2).1 in
        let w4 = (create_ssh_client api.system h w3).1 in
        ((wait_for api.system.sleep (machine_in_state h.driver running) v).0 ≡ ok tt)
        × ((detect_provisioner api.system api.provisioners h.driver w1).0 ≡ ok provisioner)
        × ((provision_with api.system api.provisioners h provisioner w2).0 ≡ ok tt)
        × ((create_ssh_client api.system h w3).0 ≡ ok client)
        × ((client "podman --version" w4).0.1 ≡ none))

  abbrev pub name_asked_again : W
  name_asked_again = (h.driver.driver_name name_asked).1

  -- A machine is set up, or its driver's name says that it is not to be.
  abbrev pub IsSetUp : Type 0
  IsSetUp =
      ((h.driver.driver_name saved_again).0 ≡ "none")
      ⊎ (((h.driver.driver_name name_asked).0 ≡ "ci-test") ⊎ IsSetUpBy name_asked_again)

  command-ok :
      (client : SshClient W) (v : W)
      → (asked_version client v).0 ≡ ok tt
      → (client "podman --version" v).0.1 ≡ none
  command-ok client v k = elim (Option-cases (client "podman --version" v).0.1) [
    | inl e ↦ e
    | inr (x, e) ↦ absurd (cc (rw e at k))
  ]

  set_up-ok : (v : W) → (set_up api h v).0 ≡ ok tt → IsSetUpBy v
  unfolding set_up
  set_up-ok v k =
      let waits = wait_for api.system.sleep (machine_in_state h.driver running) in
      let detects = detect_provisioner api.system api.provisioners h.driver in
      let wait_error = wrap "Error waiting for machine to be running" in
      let detect_error = wrap "Error detecting OS" in
      let provision_error = wrap "Error running provisioning" in
      let client_error = wrap "Error creating SSH client" in
      let w1 = (waits v).1 in
      let w2 = (detects w1).1 in
      let (u1, a, k1) = >>=-eq-ok (wrap_with wait_error waits) _ v k in
      let (provisioner, b, k2) = >>=-eq-ok (wrap_with detect_error detects) _ w1 k1 in
      let provisions = provision_with api.system api.provisioners h provisioner in
      let w3 = (provisions w2).1 in
      let (u3, c, k3) = >>=-eq-ok (wrap_with provision_error provisions) _ w2 k2 in
      let (client, d, k4) =
        >>=-eq-ok (wrap_with client_error (create_ssh_client api.system h)) _ w3 k3 in
      (
        provisioner,
        client,
        (
          wrap_with-eq-ok wait_error waits v a,
          wrap_with-eq-ok detect_error detects w1 b,
          wrap_with-eq-ok provision_error provisions w2 c,
          wrap_with-eq-ok client_error (create_ssh_client api.system h) w3 d,
          command-ok client (create_ssh_client api.system h w3).1 k4,
        ),
      )

  perform_create-IsSetUp :
      ((needs_no_set_up api h >>= λ ready. if ready then pure tt else set_up api h) saved_again).0
        ≡ ok tt
      → IsSetUp
  perform_create-IsSetUp k =
      elim (Bool-cases (str_eq (h.driver.driver_name saved_again).0 "none")) [
        | inl e ↦ inl ((eq_iff (h.driver.driver_name saved_again).0 "none").0 e)
        | inr e ↦ elim (Bool-cases (str_eq (h.driver.driver_name name_asked).0 "ci-test")) [
          | inl e' ↦ inr (inl ((eq_iff (h.driver.driver_name name_asked).0 "ci-test").0 e'))
          | inr e' ↦ inr (inr (set_up-ok name_asked_again (rw (e, e') at k)))
        ]
      ]

  -- A creation succeeds only if its steps did, in this order: certificates, check, save, creation
  -- by the driver, second save, and, unless the driver says that it is "none" or, asked again,
  -- "ci-test", the wait for the state running, the detection of the provisioner, its provisioning,
  -- the ssh client, and its command "podman --version".
  pub create-ok :
      (create api h w).0 ≡ ok tt
      → ((api.bootstrap_certificates (auth_options h) w).0 ≡ ok tt)
        × ((h.driver.pre_create_check bootstrapped).0 ≡ ok tt)
        × ((api.store.save h checked).0 ≡ ok tt)
        × ((h.driver.create saved).0 ≡ ok tt)
        × ((api.store.save h created).0 ≡ ok tt)
        × IsSetUp
  unfolding create perform_create
  create-ok k =
      let certificates =
        wrap_with (wrap "Error generating certificates")
          (api.bootstrap_certificates (auth_options h)) in
      let check = wrap_with during_pre_create h.driver.pre_create_check in
      let first =
        wrap_with (wrap "Error saving host to store before attempting creation")
          (api.store.save h) in
      let driven = wrap_with (wrap "Error in driver during machine creation") h.driver.create in
      let second =
        wrap_with (wrap "Error saving host to store after attempting creation")
          (api.store.save h) in
      let (u1, b, k1) = >>=-eq-ok certificates _ w k in
      let (u2, c, k2) = >>=-eq-ok check _ bootstrapped k1 in
      let (u3, s, k3) = >>=-eq-ok first _ checked k2 in
      let k4 = wrap_with-eq-ok (wrap "Error creating machine") (perform_create api h) saved k3 in
      let (u5, d, k5) = >>=-eq-ok driven _ saved k4 in
      let (u6, t, k6) = >>=-eq-ok second _ created k5 in
      (
        wrap_with-eq-ok (wrap "Error generating certificates")
            (api.bootstrap_certificates (auth_options h)) w b,
        wrap_with-eq-ok during_pre_create h.driver.pre_create_check bootstrapped c,
        wrap_with-eq-ok (wrap "Error saving host to store before attempting creation")
            (api.store.save h) checked s,
        wrap_with-eq-ok (wrap "Error in driver during machine creation") h.driver.create saved d,
        wrap_with-eq-ok (wrap "Error saving host to store after attempting creation")
            (api.store.save h) created t,
        perform_create-IsSetUp k6,
      )
