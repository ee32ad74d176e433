-- ===== src/VirtualBox/Starting/Outcomes.antt =====
-- When a start succeeds.
use p2box.VirtualBox.Network.Adapters.{save_ipv4}
use p2box.VirtualBox.Machine.{stop, state_or_fail}
use p2box.VirtualBox.Dhcp.{Ip}
use p2box.Go.{Result, ok}
use p2box.Go.Laws.{>>=-eq-ok}
use p2box.Base.{codes, Text, none, ◌∷◌, [], ◌≡◌, ℕ, Option, some}
use p2box.State.{State}
use p2box.VirtualBox.Flags.{Settings}
use p2box.VirtualBox.Network.{HostOnlyNetwork}
use p2box.VirtualBox.Starting.Steps.{
  started_vm, IsNetworked, IsPoweredOn, IsVtxChecked, network_if_stopped-ok, power_on-ok,
  check_vtx-ok,
}
use p2box.VirtualBox.Starting.{
  Parts, network_if_stopped, power_on, check_vtx, lost_adapter, start_once,
}

module _ {W : Type 0} (p : Parts W) (settings : Settings) where
  -- The steps of a start from a world, with the worlds between them: the state is read, the network
  -- is set up if the machine is stopped, the machine is started or resumed, hardware virtualization
  -- is checked, and the address is waited for.
  abbrev pub StartedBy : W → Option HostOnlyNetwork → Type 0
  StartedBy w lost =
      (s : State) × (adapter : Option HostOnlyNetwork) × ((state_or_fail p.machine w).0 ≡ ok s)
      × (let w1 = (state_or_fail p.machine w).1 in
          let w2 = (network_if_stopped p settings s w1).1 in
          let w3 = (power_on p settings s w2).1 in
          let w4 = (check_vtx p settings w3).1 in
          let w5 = (p.wait_for_ip w4).1 in
          IsNetworked p settings s adapter w1
          × IsPoweredOn p settings s w2
          × IsVtxChecked p settings w3
          × ((p.wait_for_ip w4).0 ≡ ok tt)
          × ((lost_adapter p settings adapter w5).0 ≡ ok lost))

  -- The first part of a start succeeds only if each of its steps did, in their order.
  pub start_once-ok :
      (w : W) (lost : Option HostOnlyNetwork)
      → (start_once p settings w).0 ≡ ok lost
      → StartedBy w lost
  unfolding start_once
  start_once-ok w lost h =
      let (s, e1, k1) = >>=-eq-ok (state_or_fail p.machine) _ w h in
      let w1 = (state_or_fail p.machine w).1 in
      let (adapter, e2, k2) = >>=-eq-ok (network_if_stopped p settings s) _ w1 k1 in
      let w2 = (network_if_stopped p settings s w1).1 in
      let (u3, e3, k3) = >>=-eq-ok (power_on p settings s) _ w2 k2 in
      let w3 = (power_on p settings s w2).1 in
      let (u4, e4, k4) = >>=-eq-ok (check_vtx p settings) _ w3 k3 in
      let w4 = (check_vtx p settings w3).1 in
      let (u5, e5, k5) = >>=-eq-ok p.wait_for_ip _ w4 k4 in
      (
        s,
        adapter,
        e1,
        (
          network_if_stopped-ok p settings s adapter w1 e2,
          power_on-ok p settings s w2 e3,
          check_vtx-ok p settings w3 e4,
          e5,
          k5,
        ),
      )

  -- VirtualBox accepted the address and the mask of the adapter, if it has them.
  abbrev pub IsAddressed : Text → Option Ip → Option Ip → W → Type 0
  IsAddressed name (some ip) (some mask) w =
      (p.machine.vbox.run
        (codes "hostonlyif"
          ∷ codes "ipconfig"
          ∷ name
          ∷ codes "--ip"
          ∷ p.lib.ip_text ip
          ∷ codes "--netmask"
          ∷ p.lib.ip_text mask
          ∷ [])
        w).0
      ≡ ok tt
  IsAddressed name _ _ w = Unit {0}

  -- From the world after the stop: the pause, the address, another pause, the second start of the
  -- machine, and the wait for its address.
  abbrev pub IsRepaired : HostOnlyNetwork → W → Type 0
  IsRepaired adapter v =
      let v1 = p.machine.sleep 5000 v in
      let v2 = p.machine.sleep 5000 (save_ipv4 p.lib p.machine.vbox adapter v1).1 in
      IsAddressed adapter.name adapter.ip adapter.mask v1
      × ((started_vm p settings v2).0 ≡ ok tt)
      × ((p.wait_for_ip (started_vm p settings v2).1).0 ≡ ok tt)

  abbrev pub IsRepairedIf : ℕ → Option HostOnlyNetwork → W → Type 0
  IsRepairedIf fuel none v = Unit {0}
  IsRepairedIf fuel (some adapter) v =
      (v' : W) × (stop p.machine fuel v ≡ some (ok tt, v')) × IsRepaired adapter v'

  abbrev result_or : Result (Unit {0}) → Option (Result (Unit {0}) × W) → Result (Unit {0})
  result_or r none = r
  result_or r (some (r', w)) = r'
