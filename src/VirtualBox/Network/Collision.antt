-- ===== src/VirtualBox/Network/Collision.antt =====
-- drivers/virtualbox: a host-only network and the networks of the host (network.go, virtualbox.go).
use Prim.Native.Nat.{bit_and}
use p2box.Base.{
  Bool, false, String, List, [], ◌∷◌, ◌++◌, Option, none, some, if◌then◌else◌, ◌&&◌, ◌||◌, not,
}
use p2box.Go.{Error, message, Result, ok, err, Go, pure, fail, ◌>>=◌}
use p2box.VirtualBox.Dhcp.{Ip}
use p2box.VirtualBox.Network.{NetLibrary, Networks, Subnet, ip_eq}

-- What is read of a `net.Interface`.
pub record Interface : Type 0 where
  pub name : String
  pub up : Bool
  pub loopback : Bool

-- The interface `HostInterfaces`. An address that is no `*net.IPNet` is `none`.
pub record HostInterfaces (W : Type 0) : Type 0 where
  pub interfaces : Go W (List Interface)
  pub addrs : Interface → Go W (List (Option Subnet))

-- Two networks have one text if they have one address and one mask.
abbrev pub subnet_eq : Subnet → Subnet → Bool
subnet_eq s t = ip_eq s.ip t.ip && ip_eq s.mask t.mask

abbrev pub is_listed : Subnet → List Subnet → Bool
is_listed s [] = false
is_listed s (t ∷ ts) = subnet_eq t s || is_listed s ts

-- The keys by CIDR. An adapter without an address or a mask has the text of no address.
abbrev pub onto_subnets : Option Ip → Option Ip → List Subnet → List Subnet
onto_subnets (some ip) (some mask) subnets = record { ip = ip; mask = mask } ∷ subnets
onto_subnets _ _ subnets = subnets

abbrev pub by_cidr : Networks → List Subnet
by_cidr [] = []
by_cidr ((name, n) ∷ nets) = onto_subnets n.ip n.mask (by_cidr nets)

abbrev pub onto_nets : Option Subnet → List Subnet → List Subnet
onto_nets none subnets = subnets
onto_nets (some s) subnets = s ∷ subnets

abbrev pub nets_among : List (Option Subnet) → List Subnet
nets_among [] = []
nets_among (a ∷ addrs) = onto_nets a (nets_among addrs)

abbrev pub any_listed : List Subnet → List Subnet → Bool
any_listed [] excluded = false
any_listed (s ∷ subnets) excluded = is_listed s excluded || any_listed subnets excluded

-- The addresses of one interface that count.
unfoldable pub kept_of : List Subnet → Interface → List (Option Subnet) → List Subnet
kept_of excluded i addrs =
    if any_listed (nets_among addrs) excluded || (not i.up || i.loopback)
    then []
    else nets_among addrs

-- ip.Mask(mask)
abbrev pub masked : Subnet → Ip
masked s = record {
  a = bit_and s.ip.a s.mask.a;
  b = bit_and s.ip.b s.mask.b;
  c = bit_and s.ip.c s.mask.c;
  d = bit_and s.ip.d s.mask.d;
}

unfoldable pub check_ip_net_collision : Subnet → List Subnet → Bool
check_ip_net_collision hostonly [] = false
check_ip_net_collision hostonly (s ∷ subnets) =
    ip_eq hostonly.ip (masked s) || check_ip_net_collision hostonly subnets

abbrev pub network_addr_cidr : Error
network_addr_cidr =
    message "host-only cidr must be specified with a host address, not a network address"

abbrev pub network_addr_collision : Error
network_addr_collision =
    message "host-only cidr conflicts with the network address of a host interface"

module _ (lib : NetLibrary) where
  abbrev pub host_address : Option (Ip × Subnet) → Result (Ip × Subnet)
  host_address none = err (message "invalid CIDR address")
  host_address (some (ip, network)) =
      if ip_eq ip network.ip then err network_addr_cidr else ok (ip, network)

  unfoldable pub parse_and_validate_cidr : String → Result (Ip × Subnet)
  parse_and_validate_cidr host_only_cidr = host_address (lib.parse_cidr host_only_cidr)

module _ {W : Type 0} (hif : HostInterfaces W) where
  -- The loop over the interfaces.
  unfoldable pub addresses_of : List Subnet → List Interface → Go W (List Subnet)
  addresses_of excluded [] = pure []
  addresses_of excluded (i ∷ ifaces) = do
    addrs ← hif.addrs i
    rest ← addresses_of excluded ifaces
    pure (kept_of excluded i addrs ++ rest)

  unfoldable pub list_host_interfaces : List Subnet → Go W (List Subnet)
  list_host_interfaces excluded = do ifaces ← hif.interfaces; addresses_of excluded ifaces

  unfoldable pub validate_no_ip_collisions : Subnet → Networks → Go W Unit
  validate_no_ip_collisions host_only_net curr_host_only_nets = do
    m ← list_host_interfaces (by_cidr curr_host_only_nets)
    if check_ip_net_collision host_only_net m then fail network_addr_collision else pure tt
