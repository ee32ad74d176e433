-- ===== src/VirtualBox/Network.antt =====
-- drivers/virtualbox/network.go: the host-only adapters of VirtualBox.
pub mod Adapters
pub mod Distinct
pub mod Found
pub mod Servers
pub mod Collision
use p2box.Base.{
  ℕ, zero, suc, Bool, true, false, String, Text, codes, text_eq, has_prefix, List, [], ◌∷◌, ◌++◌,
  Option, none, some, if◌then◌else◌, ◌&&◌, ◌||◌, ◌==◌, not,
}
use p2box.Go.{Error, message, Result, ok, err, Go, pure, fail, lift, ◌>>=◌, ◌>>◌}
use p2box.Wait.{Sleep}
use p2box.VirtualBox.Vbm.{VboxManager, args_of}
use p2box.VirtualBox.Output.{colon_line, parse_key_values}
use p2box.VirtualBox.Dhcp.{Ip}

-- The addresses and masks are those of IPv4. The functions of package net: ParseIP, IP.String,
-- ParseMAC, ParseCIDR (whose second result is the network), and IPMask.Size.
pub record Subnet : Type 0 where
  pub ip : Ip
  pub mask : Ip

pub record NetLibrary : Type 0 where
  pub parse_ip : Text → Option Ip
  pub ip_text : Ip → Text
  pub parse_mac : Text → Option Text
  pub parse_cidr : String → Option (Ip × Subnet)
  pub mask_ones : Ip → ℕ

abbrev pub ip_eq : Ip → Ip → Bool
ip_eq p q = (p.a == q.a) && ((p.b == q.b) && ((p.c == q.c) && (p.d == q.d)))

-- The mask "0f000000".
abbrev pub buggy_netmask : Ip
buggy_netmask = record { a = 15; b = 0; c = 0; d = 0 }

-- `hostOnlyNetwork`, where `none` stands for nil.
pub record HostOnlyNetwork : Type 0 where
  pub name : Text
  pub guid : Text
  pub dhcp : Bool
  pub ip : Option Ip
  pub mask : Option Ip
  pub hw_addr : Option Text
  pub medium : Text
  pub status : Text
  pub network_name : Text

abbrev pub empty_network : HostOnlyNetwork
empty_network = record {
  name = [];
  guid = [];
  dhcp = false;
  ip = none;
  mask = none;
  hw_addr = none;
  medium = [];
  status = [];
  network_name = [];
}

-- A map by network name, in the order of its iteration.
abbrev pub Networks : Type 0
Networks = List (Text × HostOnlyNetwork)

abbrev pub find_network : Text → Networks → Option HostOnlyNetwork
find_network name [] = none
find_network name ((n, net) ∷ nets) =
    let others = find_network name nets in if text_eq n name then some net else others

abbrev pub has_ip : Ip → List Ip → Bool
has_ip ip [] = false
has_ip ip (q ∷ ips) = ip_eq q ip || has_ip ip ips

abbrev pub present : {A : Type 0} → Option A → Bool
present none = false
present (some _) = true

abbrev pub same_name : Error
same_name = message "VirtualBox is configured with multiple host-only adapters with the same name"

abbrev pub same_ip : Error
same_ip = message "VirtualBox is configured with multiple host-only adapters with the same IP"

-- The two maps of `listHostOnlyAdapters` and the adapter that is being read. Of the map by address
-- only the keys are used.
pub record Scan : Type 0 where
  pub by_name : Networks
  pub by_ip : List Ip
  pub current : HostOnlyNetwork

abbrev pub empty_scan : Scan
empty_scan = record { by_name = []; by_ip = []; current = empty_network }

-- The adapter is done: it goes into the maps, and a new one begins.
abbrev pub add_ip : Option Ip → List Ip → Result (List Ip)
add_ip none ips = ok ips
add_ip (some ip) ips = if has_ip ip ips then err same_ip else ok (ip ∷ ips)

abbrev pub close_with :
    HostOnlyNetwork → Scan → Option HostOnlyNetwork → Result (List Ip) → Result Scan
close_with n s (some old) ips = err same_name
close_with n s none (err e) = err e
close_with n s none (ok ips) =
    ok (record { by_name = (n.network_name, n) ∷ s.by_name; by_ip = ips; current = empty_network })

abbrev pub close_adapter : HostOnlyNetwork → Scan → Result Scan
close_adapter n s = close_with n s (find_network n.network_name s.by_name) (add_ip n.ip s.by_ip)

abbrev pub with_current : Scan → HostOnlyNetwork → Result Scan
with_current s n = ok (record s { current = n })

-- The keys that `listHostOnlyAdapters` knows.
pub data Field : Type 0 where
  a_name a_guid a_dhcp an_ip a_mask a_mac a_medium a_status a_network other_field : Field

abbrev pub field_of : Text → Field
field_of key =
    if text_eq key (codes "Name")
    then a_name
    else if text_eq key (codes "GUID")
    then a_guid
    else if text_eq key (codes "DHCP")
    then a_dhcp
    else if text_eq key (codes "IPAddress")
    then an_ip
    else if text_eq key (codes "NetworkMask")
    then a_mask
    else if text_eq key (codes "HardwareAddress")
    then a_mac
    else if text_eq key (codes "MediumType")
    then a_medium
    else if text_eq key (codes "Status")
    then a_status
    else if text_eq key (codes "VBoxNetworkName")
    then a_network
    else other_field

module _ (lib : NetLibrary) where
  abbrev with_mac : Scan → Option Text → Result Scan
  with_mac s none = err (message "invalid MAC address")
  with_mac s (some mac) = ok (record s { current = record (s.current) { hw_addr = some mac } })

  -- The cases of the callback of `listHostOnlyAdapters`.
  unfoldable pub read_field : Field → Text → Scan → Result Scan
  read_field a_name val s = with_current s (record (s.current) { name = val })
  read_field a_guid val s = with_current s (record (s.current) { guid = val })
  read_field a_dhcp val s =
      with_current s (record (s.current) { dhcp = not (text_eq val (codes "Disabled")) })
  read_field an_ip val s = with_current s (record (s.current) { ip = lib.parse_ip val })
  read_field a_mask val s = with_current s (record (s.current) { mask = lib.parse_ip val })
  read_field a_mac val s = with_mac s (lib.parse_mac val)
  read_field a_medium val s = with_current s (record (s.current) { medium = val })
  read_field a_status val s = with_current s (record (s.current) { status = val })
  read_field a_network val s = close_adapter (record (s.current) { network_name = val }) s
  read_field other_field val s = ok s

  unfoldable pub read_adapter : Text → Text → Scan → Result Scan
  read_adapter key val s = read_field (field_of key) val s

  unfoldable pub adapters_of : Text → Result Networks
  adapters_of out = elim (parse_key_values colon_line read_adapter out empty_scan) [
    | err e ↦ err e
    | ok s ↦ ok s.by_name
  ]
