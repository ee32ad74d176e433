-- ===== src/VirtualBox/Network/Adapters.antt =====
-- drivers/virtualbox/network.go: finding a host-only adapter, or making one.
use p2box.Base.{
  ℕ, zero, suc, Bool, false, Text, codes, [], ◌∷◌, Option, none, some, if◌then◌else◌, ◌&&◌, ◌||◌,
}
use p2box.Go.{Error, message, Result, ok, err, Go, pure, fail, lift, ◌>>=◌, ◌>>◌}
use p2box.Wait.{Sleep}
use p2box.VirtualBox.Vbm.{VboxManager, args_of}
use p2box.VirtualBox.Dhcp.{Ip}
use p2box.VirtualBox.Network.{
  NetLibrary, HostOnlyNetwork, Networks, ip_eq, buggy_netmask, find_network, present, adapters_of,
}

abbrev pub not_visible : Error
not_visible = message "The host-only adapter we just created is not visible"

abbrev pub fields_match : Ip → Ip → Option Ip → Option Ip → Bool
fields_match host_ip netmask none mask = false
fields_match host_ip netmask (some ip) none = false
fields_match host_ip netmask (some ip) (some mask) =
    ip_eq host_ip ip && (ip_eq netmask mask || ip_eq mask buggy_netmask)

abbrev pub matches : Ip → Ip → HostOnlyNetwork → Bool
matches host_ip netmask n = fields_match host_ip netmask n.ip n.mask

-- The first that matches, in the order of the map.
unfoldable pub get_host_only_adapter : Networks → Ip → Ip → Option HostOnlyNetwork
get_host_only_adapter [] host_ip netmask = none
get_host_only_adapter ((name, n) ∷ nets) host_ip netmask =
    let others = get_host_only_adapter nets host_ip netmask in
    if matches host_ip netmask n then some n else others

module _ (lib : NetLibrary) where
  module _ {W : Type 0} (vbox : VboxManager W) where
    unfoldable pub list_host_only_adapters : Go W Networks
    list_host_only_adapters = do
      out ← vbox.run_out (args_of ("list" ∷ "hostonlyifs" ∷ []))
      lift (adapters_of lib out)

    -- `SaveIPv4`: nothing is done without an address and a mask.
    abbrev pub save_ipv4_of : Text → Option Ip → Option Ip → Go W Unit
    save_ipv4_of name (some ip) (some mask) = vbox.run (
        codes "hostonlyif"
        ∷ codes "ipconfig"
        ∷ name
        ∷ codes "--ip"
        ∷ lib.ip_text ip
        ∷ codes "--netmask"
        ∷ lib.ip_text mask
        ∷ [])
    save_ipv4_of name _ _ = pure tt

    unfoldable pub save_ipv4 : HostOnlyNetwork → Go W Unit
    save_ipv4 n = save_ipv4_of n.name n.ip n.mask

    -- The error of the call for DHCP is dropped.
    abbrev pub ask_dhcp : HostOnlyNetwork → Go W Unit
    ask_dhcp n w =
        if n.dhcp
        then (
          ok tt,
          (vbox.run (codes "hostonlyif" ∷ codes "ipconfig" ∷ n.name ∷ codes "--dhcp" ∷ []) w).1,
        )
        else (ok tt, w)

    unfoldable pub save_network : HostOnlyNetwork → Go W Unit
    save_network n = do save_ipv4 n; ask_dhcp n

    -- What `createHostonlyAdapter` asks VirtualBox; the caller reads neither the adapter nor the
    -- error that it makes of the answer.
    unfoldable pub create_hostonly_adapter : W → W
    create_hostonly_adapter w = (vbox.run_out (args_of ("hostonlyif" ∷ "create" ∷ [])) w).1

    -- The first of the adapters that the old ones do not name.
    abbrev pub new_among : Networks → Networks → Option HostOnlyNetwork
    new_among old_nets [] = none
    new_among old_nets ((name, net) ∷ nets) =
        let others = new_among old_nets nets in
        if present (find_network name old_nets) then others else some net

    -- One round of the wait, from what the next ones give.
    abbrev pub looked_at :
        Networks → Result HostOnlyNetwork × W → W → Result Networks → Result HostOnlyNetwork × W
    looked_at old_nets later w (err e) = (err e, w)
    looked_at old_nets later w (ok new_nets) = elim (new_among old_nets new_nets) [
      | none ↦ later
      | some net ↦ (ok net, w)
    ]

    module _ (sleep : Sleep W) where
      -- The rounds that are left.
      unfoldable pub wait_rounds : ℕ → Networks → Go W HostOnlyNetwork
      wait_rounds zero old_nets w = (err (message "Failed to find a new host-only adapter"), w)
      wait_rounds (suc rounds) old_nets w =
          let (r, w') = list_host_only_adapters (sleep 1000 w) in
          let later = wait_rounds rounds old_nets w' in looked_at old_nets later w' r

      unfoldable pub wait_for_new_host_only_network : Networks → Go W HostOnlyNetwork
      wait_for_new_host_only_network old_nets = wait_rounds 10 old_nets

      -- The adapter that was found gets the address and the mask.
      abbrev pub configured : Ip → Ip → Result HostOnlyNetwork → Go W HostOnlyNetwork
      configured host_ip netmask (err e) = fail not_visible
      configured host_ip netmask (ok found) = do
        let adapter = record found { ip = some host_ip; mask = some netmask }
        save_network adapter
        pure adapter

      -- The part of `getOrCreateHostOnlyNetwork` where no adapter was found.
      unfoldable pub create_network : Ip → Ip → Networks → Go W HostOnlyNetwork
      create_network host_ip netmask nets w =
          let (r, w') = wait_for_new_host_only_network nets (create_hostonly_adapter w) in
          configured host_ip netmask r w'

      abbrev pub or_create : Ip → Ip → Networks → Option HostOnlyNetwork → Go W HostOnlyNetwork
      or_create host_ip netmask nets (some n) = pure n
      or_create host_ip netmask nets none = create_network host_ip netmask nets

      unfoldable pub get_or_create_host_only_network : Ip → Ip → Networks → Go W HostOnlyNetwork
      get_or_create_host_only_network host_ip netmask nets =
          or_create host_ip netmask nets (get_host_only_adapter nets host_ip netmask)
