-- ===== src/VirtualBox/Starting/Steps.antt =====
-- What the steps of a start ask of VirtualBox when they succeed.
use p2box.Base.{
  ◌≡◌, ◌∙◌, ◌⊎◌, inl, inr, refl, sym, true, false, Bool-cases, codes, ◌∷◌, [], Option, none, some,
  ap,
}
use p2box.State.{State, paused, saved, stopped}
use p2box.Go.{Result, ok, err, wrap, wrap_with, pure, ◌>>=◌}
use p2box.Go.Laws.{>>=-eq-ok, wrap_with-eq-ok, ok-injective}
use p2box.VirtualBox.Flags.{Settings}
use p2box.VirtualBox.Network.{HostOnlyNetwork}
use p2box.VirtualBox.Vtx.{is_vtx_disabled_in_the_vm}
use p2box.VirtualBox.Starting.{
  Parts, setup_host_only_network, network_if_stopped, forward_ssh, or_unable, power_on, check_vtx,
}

module _ {W : Type 0} (p : Parts W) (settings : Settings) where
  abbrev pub started_vm : W → Result (Unit {0}) × W
  started_vm =
      p.machine.vbox.run
        (codes "startvm" ∷ p.machine.name ∷ codes "--type" ∷ codes settings.ui_type ∷ [])

  -- The port for ssh was forwarded, and VirtualBox started the machine.
  abbrev pub IsLaunched : W → Type 0
  IsLaunched w =
      ((forward_ssh p settings w).0 ≡ ok tt) × ((started_vm (forward_ssh p settings w).1).0 ≡ ok tt)

  -- A machine that is stopped or saved was started, and one that is paused was resumed.
  abbrev pub IsPoweredOn : State → W → Type 0
  IsPoweredOn stopped w = IsLaunched w
  IsPoweredOn saved w = IsLaunched w
  IsPoweredOn paused w =
      (p.machine.vbox.run
        (codes "controlvm"
          ∷ p.machine.name
          ∷ codes "resume"
          ∷ codes "--type"
          ∷ codes settings.ui_type
          ∷ [])
        w).0
      ≡ ok tt
  IsPoweredOn _ w = Unit {0}

  -- A machine that is stopped gets an adapter, and no other does.
  abbrev pub IsNetworked : State → Option HostOnlyNetwork → W → Type 0
  IsNetworked stopped none w = ⊥
  IsNetworked stopped (some n) w = (setup_host_only_network p settings w).0 ≡ ok n
  IsNetworked s adapter w = adapter ≡ none

  -- The check is switched off, or the log does not tell that the hardware is disabled.
  abbrev pub IsVtxChecked : W → Type 0
  IsVtxChecked w =
      (settings.no_vtx_check ≡ true) ⊎ ((is_vtx_disabled_in_the_vm p.read_log w).0 ≡ ok false)

  or_unable-ok : (r : Result (Unit {0})) (w : W) → (or_unable p settings r w).0 ≡ ok tt → r ≡ ok tt
  or_unable-ok (ok u) w h = refl
  or_unable-ok (err e) w h = cc h

  launched :
      (w : W)
      → ((forward_ssh p settings >>= λ _.
            λ v. let (r, v') = started_vm v in or_unable p settings r v')
          w).0
        ≡ ok tt
      → IsLaunched w
  launched w h =
      let (u, forwarded, k) = >>=-eq-ok (forward_ssh p settings) _ w h in
      (forwarded, or_unable-ok (started_vm (forward_ssh p settings w).1).0 _ k)

  pub power_on-ok : (s : State) (w : W) → (power_on p settings s w).0 ≡ ok tt → IsPoweredOn s w
  unfolding power_on
  power_on-ok stopped w h = launched w h
  power_on-ok saved w h = launched w h
  power_on-ok paused w h = h
  power_on-ok _ w h = tt

  pub network_if_stopped-ok :
      (s : State) (adapter : Option HostOnlyNetwork) (w : W)
      → (network_if_stopped p settings s w).0 ≡ ok adapter
      → IsNetworked s adapter w
  network_if_stopped-ok stopped adapter w h =
      let setup_error = wrap "Error setting up host only network on machine start" in
      let (n, e, k) =
        >>=-eq-ok (wrap_with setup_error (setup_host_only_network p settings)) (λ n. pure (some n))
          w h in
      with_adapter adapter n (ok-injective k)
        (wrap_with-eq-ok setup_error (setup_host_only_network p settings) w e)
    where
      with_adapter :
          (adapter : Option HostOnlyNetwork) (n : HostOnlyNetwork)
          → some n ≡ adapter
          → (setup_host_only_network p settings w).0 ≡ ok n
          → IsNetworked stopped adapter w
      with_adapter none n k e = cc k
      with_adapter (some m) n k e = let same : n ≡ m = cc k in e ∙ ap ok same
  network_if_stopped-ok s adapter w h = sym (ok-injective h)

  pub check_vtx-ok : (w : W) → (check_vtx p settings w).0 ≡ ok tt → IsVtxChecked w
  unfolding check_vtx
  check_vtx-ok w h = elim (Bool-cases settings.no_vtx_check) [
    | inl e ↦ inl e
    | inr e ↦
        let asked = is_vtx_disabled_in_the_vm p.read_log in
        let vtx_error = wrap "Checking if hardware virtualization is enabled failed" in
        let (disabled, r, k) = >>=-eq-ok (wrap_with vtx_error asked) _ w (rw e at h) in
        elim (Bool-cases disabled) [
          | inl d ↦ cc (k, d)
          | inr d ↦ inr (wrap_with-eq-ok vtx_error asked w r ∙ ap ok d)
        ]
  ]
