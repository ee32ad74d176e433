-- ===== src/VirtualBox/Network/Servers.antt =====
-- drivers/virtualbox/network.go: the DHCP servers of VirtualBox.
pub mod Orphans
use p2box.Base.{
  Bool, true, false, Text, codes, text_eq, has_prefix, List, [], ◌∷◌, ◌++◌, Option, none, some,
  if◌then◌else◌, ◌&&◌, not,
}
use p2box.Go.{Error, Result, ok, err, Go, pure, lift, ◌>>=◌, ◌>>◌}
use p2box.VirtualBox.Vbm.{VboxManager, args_of}
use p2box.VirtualBox.Output.{colon_line, parse_key_values}
use p2box.VirtualBox.Dhcp.{Ip}
use p2box.VirtualBox.Network.{NetLibrary, Networks, ip_eq, find_network, present}
use p2box.VirtualBox.Network.Adapters.{list_host_only_adapters}

-- `dhcpServer`, where `none` stands for nil.
pub record DhcpServer : Type 0 where
  pub network_name : Text
  pub ip : Option Ip
  pub mask : Option Ip
  pub lower_ip : Option Ip
  pub upper_ip : Option Ip
  pub enabled : Bool

abbrev pub new_server : Text → DhcpServer
new_server name = record {
  network_name = name;
  ip = none;
  mask = none;
  lower_ip = none;
  upper_ip = none;
  enabled = false;
}

abbrev pub Servers : Type 0
Servers = List (Text × DhcpServer)

abbrev pub find_server : Text → Servers → Option DhcpServer
find_server name [] = none
find_server name ((n, d) ∷ rest) =
    let others = find_server name rest in if text_eq n name then some d else others

-- m[name] = d
abbrev pub put_server : Text → DhcpServer → Servers → Servers
put_server name d [] = (name, d) ∷ []
put_server name d ((n, old) ∷ rest) =
    let others = put_server name d rest in
    if text_eq n name then (n, d) ∷ rest else (n, old) ∷ others

-- The servers so far, and the name of the one that the next lines are about. Lines before the
-- first name are about a server that is in no map.
pub record ServerScan : Type 0 where
  pub servers : Servers
  pub current : Option Text

-- A change of the server that the pointer `dhcp` shows.
abbrev pub change : (DhcpServer → DhcpServer) → Text → Servers → Servers
change f name [] = []
change f name ((n, d) ∷ rest) =
    let others = change f name rest in if text_eq n name then (n, f d) ∷ rest else (n, d) ∷ others

abbrev pub change_current : (DhcpServer → DhcpServer) → ServerScan → Result ServerScan
change_current f s = elim s.current [
  | none ↦ ok s
  | some name ↦ ok (record s { servers = change f name s.servers })
]

abbrev pub dhcp_prefix : Text
dhcp_prefix = codes "HostInterfaceNetworking-"

abbrev pub maybe_ip_eq : Option Ip → Option Ip → Bool
maybe_ip_eq none none = true
maybe_ip_eq (some p) (some q) = ip_eq p q
maybe_ip_eq _ _ = false

abbrev bool_eq : Bool → Bool → Bool
bool_eq true b = b
bool_eq false b = not b

-- What is compared of a server that is there and the one that is wanted.
abbrev pub is_up_to_date : DhcpServer → DhcpServer → Bool
is_up_to_date there wanted =
    maybe_ip_eq there.ip wanted.ip
    && (maybe_ip_eq there.mask wanted.mask
        && (maybe_ip_eq there.lower_ip wanted.lower_ip
            && (maybe_ip_eq there.upper_ip wanted.upper_ip
                && bool_eq there.enabled wanted.enabled)))

abbrev pub remove_args : Text → List Text
remove_args name = codes "dhcpserver" ∷ codes "remove" ∷ codes "--netname" ∷ name ∷ []

abbrev pub is_orphan : Networks → Text → Bool
is_orphan nets name = has_prefix name dhcp_prefix && not (present (find_network name nets))

module _ (lib : NetLibrary) where
  -- The callback of `listDHCPServers`.
  unfoldable pub read_server : Text → Text → ServerScan → Result ServerScan
  read_server key val s =
      if text_eq key (codes "NetworkName")
      then ok (record { servers = put_server val (new_server val) s.servers; current = some val })
      else if text_eq key (codes "IP")
      then change_current (λ d. record d { ip = lib.parse_ip val }) s
      else if text_eq key (codes "upperIPAddress")
      then change_current (λ d. record d { upper_ip = lib.parse_ip val }) s
      else if text_eq key (codes "lowerIPAddress")
      then change_current (λ d. record d { lower_ip = lib.parse_ip val }) s
      else if text_eq key (codes "NetworkMask")
      then change_current (λ d. record d { mask = lib.parse_ip val }) s
      else if text_eq key (codes "Enabled")
      then change_current (λ d. record d { enabled = text_eq val (codes "Yes") }) s
      else ok s

  abbrev pub servers_of : Result ServerScan → Result Servers
  servers_of (err e) = err e
  servers_of (ok s) = ok s.servers

  -- nil is printed as "<nil>"
  abbrev pub ip_arg : Option Ip → Text
  ip_arg none = codes "<nil>"
  ip_arg (some ip) = lib.ip_text ip

  abbrev pub server_args : Text → Text → DhcpServer → List Text
  server_args command name d =
      codes "dhcpserver"
      ∷ command
      ∷ codes "--netname"
      ∷ name
      ∷ codes "--ip"
      ∷ ip_arg d.ip
      ∷ codes "--netmask"
      ∷ ip_arg d.mask
      ∷ codes "--lowerip"
      ∷ ip_arg d.lower_ip
      ∷ codes "--upperip"
      ∷ ip_arg d.upper_ip
      ∷ (if d.enabled then codes "--enable" else codes "--disable")
      ∷ []

  module _ {W : Type 0} (vbox : VboxManager W) where
    unfoldable pub list_dhcp_servers : Go W Servers
    list_dhcp_servers = do
      out ← vbox.run_out (args_of ("list" ∷ "dhcpservers" ∷ []))
      lift (
          servers_of
            (parse_key_values colon_line read_server out (record { servers = []; current = none })))

    -- The loop over the servers; the error of a removal is only logged.
    unfoldable pub remove_orphans : Networks → Servers → W → W
    remove_orphans nets [] w = w
    remove_orphans nets ((name, d) ∷ rest) w =
        let w' = (if is_orphan nets name then (vbox.run (remove_args name) w).1 else w) in
        remove_orphans nets rest w'

    -- The part of `removeOrphanDHCPServers` where there are servers.
    abbrev pub among_adapters : Servers → Go W Unit
    among_adapters [] = pure tt
    among_adapters (d ∷ dhcps) = do
      nets ← list_host_only_adapters lib vbox
      λ w. (ok tt, remove_orphans nets (d ∷ dhcps) w)

    unfoldable pub remove_orphan_dhcp_servers : Go W Unit
    remove_orphan_dhcp_servers = do dhcps ← list_dhcp_servers; among_adapters dhcps

    abbrev pub add_or_modify : Text → DhcpServer → Option DhcpServer → Go W Unit
    add_or_modify name d none = vbox.run (server_args (codes "add") name d)
    add_or_modify name d (some there) =
        if is_up_to_date there d then pure tt else vbox.run (server_args (codes "modify") name d)

    unfoldable pub add_host_only_dhcp_server : Text → DhcpServer → Go W Unit
    add_host_only_dhcp_server ifname d = do
      dhcps ← list_dhcp_servers
      add_or_modify (dhcp_prefix ++ ifname) d (find_server (dhcp_prefix ++ ifname) dhcps)
