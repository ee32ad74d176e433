-- ===== src/VirtualBox/Starting.antt =====
-- drivers/virtualbox/virtualbox.go: setting up the host-only network, and starting a machine.
pub mod Outcomes
pub mod Steps
use p2box.Base.{
  ℕ, ℤ, Bool, true, false, String, Text, codes, List, [], ◌∷◌, Option, none, some, if◌then◌else◌,
  str_eq, ◌||◌, not,
}
use p2box.State.{State, stopped, saved, paused, state_eq}
use p2box.Go.{
  Error, message, wrap, must_enable_vtx, Result, ok, err, Go, pure, fail, lift, ◌>>=◌, ◌>>◌,
  wrap_with,
}
use p2box.Drivers.{Method}
use p2box.VirtualBox.Flags.{Settings}
use p2box.VirtualBox.Machine.{Machine, state_or_fail, stop}
use p2box.VirtualBox.Vtx.{is_vtx_disabled_in_the_vm}
use p2box.VirtualBox.Ports.{set_port_forwarding}
use p2box.VirtualBox.Dhcp.{Ip, IpNet, get_random_ip_in_subnet, get_dhcp_address_range}
use p2box.VirtualBox.Network.{NetLibrary, HostOnlyNetwork, Networks, Subnet}
use p2box.VirtualBox.Network.Adapters.{
  list_host_only_adapters, get_host_only_adapter, get_or_create_host_only_network, save_ipv4,
}
use p2box.VirtualBox.Network.Servers.{
  DhcpServer, remove_orphan_dhcp_servers, add_host_only_dhcp_server,
}
use p2box.VirtualBox.Network.Collision.{
  HostInterfaces, parse_and_validate_cidr, validate_no_ip_collisions,
}

-- The parts of `Driver` behind interfaces, its field `SSHPort`, and the library: `listen` opens a
-- port, `read_log` reads the lines of VBox.log, `wait_for_ip` is `ipWaiter.Wait`.
pub record Parts (W : Type 0) : Type 0 where
  pub machine : Machine W
  pub lib : NetLibrary
  pub decimal : ℤ → Text
  pub host_interfaces : HostInterfaces W
  pub random_int : ℕ → Method W ℕ
  pub listen : ℤ → Go W ℤ
  pub read_log : Go W (List Text)
  pub wait_for_ip : Go W Unit
  pub ssh_port : W → ℤ
  pub set_ssh_port : ℤ → W → W

abbrev pub last_line : List Text → Option Text
last_line [] = none
last_line (line ∷ []) = some line
last_line (line ∷ next ∷ lines) = last_line (next ∷ lines)

module _ {W : Type 0} (p : Parts W) (settings : Settings) where
  abbrev cidr : String
  cidr = if str_eq settings.host_only_cidr "" then "192.168.99.1/24" else settings.host_only_cidr

  abbrev server_for : Ip → Subnet → DhcpServer
  server_for dhcp_addr network =
      let (lower, upper) =
        get_dhcp_address_range dhcp_addr
          (record { ip = network.ip; ones = p.lib.mask_ones network.mask }) in
      record {
        network_name = [];
        ip = some dhcp_addr;
        mask = some network.mask;
        lower_ip = some lower;
        upper_ip = some upper;
        enabled = not settings.host_only_no_dhcp;
      }

  unfoldable pub setup_host_only_network : Go W HostOnlyNetwork
  setup_host_only_network = do
    (ip, network) ← lift (parse_and_validate_cidr p.lib cidr)
    nets ← list_host_only_adapters p.lib p.machine.vbox
    validate_no_ip_collisions p.host_interfaces network nets
    adapter ←
        get_or_create_host_only_network p.lib p.machine.vbox p.machine.sleep ip network.mask nets
    remove_orphan_dhcp_servers p.lib p.machine.vbox
    dhcp_addr ← get_random_ip_in_subnet p.random_int ip
    add_host_only_dhcp_server p.lib p.machine.vbox adapter.name (server_for dhcp_addr network)
    p.machine.vbox.run (
        codes "modifyvm"
        ∷ p.machine.name
        ∷ codes "--nic2"
        ∷ codes "hostonly"
        ∷ codes "--nictype2"
        ∷ codes settings.host_only_nic_type
        ∷ codes "--nicpromisc2"
        ∷ codes settings.host_only_promisc_mode
        ∷ codes "--hostonlyadapter2"
        ∷ adapter.name
        ∷ codes "--cableconnected2"
        ∷ codes "on"
        ∷ [])
    pure adapter

  abbrev startvm : Go W Unit
  startvm =
      p.machine.vbox.run
        (codes "startvm" ∷ p.machine.name ∷ codes "--type" ∷ codes settings.ui_type ∷ [])

  abbrev with_details : Error → Option Text → Error
  with_details e none = wrap "Unable to start the VM" e
  with_details e (some line) = wrap "Unable to start the VM, with details" e

  -- The last line of the log goes into the text of the error, where it can be read.
  abbrev start_error : Error → Result (List Text) → Error
  start_error e (err x) = wrap "Unable to start the VM" e
  start_error e (ok lines) = with_details e (last_line lines)

  abbrev unable_to_start : Error → Go W Unit
  unable_to_start e w = let (r, w') = p.read_log w in (err (start_error e r), w')

  abbrev pub or_unable : Result (Unit {0}) → Go W Unit
  or_unable (ok u) = pure tt
  or_unable (err e) = unable_to_start e

  -- d.SSHPort, err = setPortForwarding(...): the port is set where there is an error, too.
  abbrev keep_port : Result ℤ → Go W Unit
  keep_port (ok port) w = (ok tt, p.set_ssh_port port w)
  keep_port (err e) w = (err e, p.set_ssh_port (ℤ.negsuc 0) w)

  unfoldable pub forward_ssh : Go W Unit
  forward_ssh w =
      let (r, w') =
        set_port_forwarding p.listen p.machine.sleep p.decimal p.machine.vbox p.machine.name
          (ℤ.pos 1) (codes "ssh") (codes "tcp") (ℤ.pos 22) (p.ssh_port w) w in
      keep_port r w'

  -- The cases of the state.
  unfoldable pub power_on : State → Go W Unit
  power_on s =
      if state_eq s stopped || state_eq s saved
      then (forward_ssh >>= λ _. λ w. let (r, w') = startvm w in or_unable r w')
      else if state_eq s paused
      then p.machine.vbox.run (
          codes "controlvm"
          ∷ p.machine.name
          ∷ codes "resume"
          ∷ codes "--type"
          ∷ codes settings.ui_type
          ∷ [])
      else pure tt

  abbrev pub network_if_stopped : State → Go W (Option HostOnlyNetwork)
  network_if_stopped s =
      if state_eq s stopped
      then (wrap_with (wrap "Error setting up host only network on machine start")
            setup_host_only_network
          >>= λ n. pure (some n))
      else pure none

  unfoldable pub check_vtx : Go W Unit
  check_vtx = if settings.no_vtx_check then pure tt else do
    vtx_is_disabled ←
        wrap_with (wrap "Checking if hardware virtualization is enabled failed")
          (is_vtx_disabled_in_the_vm p.read_log)
    if vtx_is_disabled then fail must_enable_vtx else pure tt

  -- Whether the adapter, if one was set up, cannot be found any more.
  abbrev lost_of : HostOnlyNetwork → Option HostOnlyNetwork → Option HostOnlyNetwork
  lost_of adapter none = some adapter
  lost_of adapter (some n) = none

  abbrev pub lost_adapter : Option HostOnlyNetwork → Go W (Option HostOnlyNetwork)
  lost_adapter none = pure none
  lost_adapter (some adapter) = do
    nets ← list_host_only_adapters p.lib p.machine.vbox
    (ip, network) ← lift (parse_and_validate_cidr p.lib settings.host_only_cidr)
    validate_no_ip_collisions p.host_interfaces network nets
    pure (lost_of adapter (get_host_only_adapter nets ip network.mask))

  -- `Start` up to the stop of a machine whose adapter is corrupted, which is then the result.
  unfoldable pub start_once : Go W (Option HostOnlyNetwork)
  start_once = do
    s ← state_or_fail p.machine
    adapter ← network_if_stopped s
    power_on s
    check_vtx
    p.wait_for_ip
    lost_adapter adapter

  -- The rest of `Start`, behind the stop.
  unfoldable pub fix_adapter : HostOnlyNetwork → Go W Unit
  fix_adapter adapter w =
      (save_ipv4 p.lib p.machine.vbox adapter >>= λ _. λ w'.
          (wrap_with (wrap "Unable to start the VM") startvm >>= λ _. p.wait_for_ip)
            (p.machine.sleep 5000 w'))
        (p.machine.sleep 5000 w)

  abbrev pub after_stop :
      HostOnlyNetwork → Option (Result (Unit {0}) × W) → Option (Result (Unit {0}) × W)
  after_stop adapter none = none
  after_stop adapter (some (err e, w)) = some (err e, w)
  after_stop adapter (some (ok u, w)) = some (fix_adapter adapter w)

  abbrev pub second_try : ℕ → Result (Option HostOnlyNetwork) → W → Option (Result (Unit {0}) × W)
  second_try fuel (err e) w = some (err e, w)
  second_try fuel (ok none) w = some (ok tt, w)
  second_try fuel (ok (some adapter)) w = after_stop adapter (stop p.machine fuel w)

  -- `Start`. The fuel is that of the stop: `none` means that it is used up.
  unfoldable pub start : ℕ → W → Option (Result (Unit {0}) × W)
  start fuel w = let (r, w') = start_once w in second_try fuel r w'

  abbrev pub wait_again : Option (Result (Unit {0}) × W) → Option (Result (Unit {0}) × W)
  wait_again none = none
  wait_again (some (err e, w)) = some (err (wrap "Problem starting the VM" e), w)
  wait_again (some (ok u, w)) = some (p.wait_for_ip (p.machine.set_ip_address [] w))

  abbrev pub start_again : ℕ → Option (Result (Unit {0}) × W) → Option (Result (Unit {0}) × W)
  start_again fuel none = none
  start_again fuel (some (err e, w)) = some (err (wrap "Problem stopping the VM" e), w)
  start_again fuel (some (ok u, w)) = wait_again (start fuel w)

  unfoldable pub restart : ℕ → W → Option (Result (Unit {0}) × W)
  restart fuel w = start_again fuel (stop p.machine fuel w)
