-- ===== src/Tests/Network.antt =====
-- Host-only networks, shares and starts at concrete inputs.
use p2box.Base.{ℕ, ℤ, ◌≡◌, refl, Text, codes, text_eq, ltb, [], ◌∷◌, none, some, if◌then◌else◌, suc}
use p2box.VirtualBox.Network.Found.{IsGot, get_or_create_host_only_network-IsFor}
use p2box.VirtualBox.Network.Servers.Orphans.{
  IsOrphan, removal_args, recording, AllOrphans, IsNamed, IsRun, remove_orphans-IsRun,
}
use p2box.VirtualBox.Network.Adapters.{get_or_create_host_only_network}
use p2box.Go.{ok, pure}
use p2box.Drivers.Check.{check_options, FlagValue}
use p2box.VirtualBox.Vbm.{VboxManager}
use p2box.VirtualBox.Flags.{new_driver, set_config_from_flags}
use p2box.VirtualBox.Flags.Registered.{registered, set_config_from_flags_registered}
use p2box.VirtualBox.Dhcp.{Ip}
use p2box.VirtualBox.Network.{
  NetLibrary, HostOnlyNetwork, Networks, Subnet, empty_network, adapters_of,
}
use p2box.VirtualBox.Network.Distinct.{IsDistinct, NoneTwice, ips_of, adapters_of-IsDistinct}
use p2box.VirtualBox.Network.Servers.{new_server, Servers, remove_args, remove_orphans, is_orphan}
use p2box.VirtualBox.Starting.{Parts}

abbrev host_ip : Ip
host_ip = record { a = 192; b = 168; c = 99; d = 1 }

abbrev netmask : Ip
netmask = record { a = 255; b = 255; c = 255; d = 0 }

abbrev net_ip : Ip
net_ip = record { a = 192; b = 168; c = 99; d = 0 }

-- The library on the texts below.
abbrev lib : NetLibrary
lib = record {
  parse_ip = λ s.
      if text_eq s (codes "192.168.99.1")
      then some host_ip
      else if text_eq s (codes "255.255.255.0")
      then some netmask
      else none;
  ip_text = λ ip. codes "192.168.99.1";
  parse_mac = λ s. some s;
  parse_cidr = λ s. some (host_ip, record { ip = net_ip; mask = netmask });
  mask_ones = λ mask. 24;
}

abbrev one_adapter : Text
one_adapter =
    codes
      "Name:            vboxnet0\nIPAddress:       192.168.99.1\nNetworkMask:     255.255.255.0\nVBoxNetworkName: HostInterfaceNetworking-vboxnet0\n"

abbrev the_adapter : HostOnlyNetwork
the_adapter = record empty_network {
  name = codes "vboxnet0";
  ip = some host_ip;
  mask = some netmask;
  network_name = codes "HostInterfaceNetworking-vboxnet0";
}

abbrev the_nets : Networks
the_nets = (codes "HostInterfaceNetworking-vboxnet0", the_adapter) ∷ []

adapters_of-IsDistinct_example : IsDistinct the_nets × NoneTwice (ips_of the_nets)
unfolding adapters_of p2box.VirtualBox.Output.parse_key_values p2box.VirtualBox.Network.read_adapter
    p2box.VirtualBox.Network.read_field
adapters_of-IsDistinct_example = adapters_of-IsDistinct lib one_adapter the_nets refl

-- The machine is saved at first, and then it runs until the ninth step. Its adapter stays.
abbrev vbox : VboxManager ℕ
vbox = record {
  run = λ args now. (ok tt, suc now);
  run_out = λ args now. (ok one_adapter, now);
  run_out_err = λ args now. (
    (
      codes (
          if ltb now 1
          then "VMState=\"saved\""
          else if ltb now 9
          then "VMState=\"running\""
          else "VMState=\"poweroff\""),
      [],
      none,
    ),
    now,
  );
}

get_or_create_host_only_network-IsFor_example :
    IsGot lib vbox
      (λ ms now. now)
      host_ip
      netmask
      the_nets
      0
      (get_or_create_host_only_network lib vbox (λ ms now. now) host_ip netmask the_nets 0)
      the_adapter
unfolding get_or_create_host_only_network p2box.VirtualBox.Network.Adapters.get_host_only_adapter
get_or_create_host_only_network-IsFor_example =
    get_or_create_host_only_network-IsFor lib vbox (λ ms now. now) host_ip netmask the_nets 0
      the_adapter refl

abbrev dhcps : Servers
dhcps =
    (
      codes "HostInterfaceNetworking-vboxnet0",
      new_server (codes "HostInterfaceNetworking-vboxnet0"),
    )
    ∷ (
      codes "HostInterfaceNetworking-vboxnet1",
      new_server (codes "HostInterfaceNetworking-vboxnet1"),
    )
    ∷ []

remove_orphans-IsRun_example :
    AllOrphans the_nets dhcps (remove_orphans lib (recording (λ args. ok tt)) the_nets dhcps [])
    × ((name : Text)
        → IsNamed name dhcps
        → IsOrphan the_nets name
        → IsRun
            (removal_args name)
            (remove_orphans lib (recording (λ args. ok tt)) the_nets dhcps []))
remove_orphans-IsRun_example = remove_orphans-IsRun lib (λ args. ok tt) the_nets dhcps

set_config_from_flags_registered_example :
    ((set_config_from_flags check_options (registered (λ key. some FlagValue.another) [])).1
      ≡ registered (λ key. some FlagValue.another) [])
    × ((set_config_from_flags check_options (registered (λ key. none) [])).0
        ≡ ok (record new_driver { ssh_user = "tc" }))
set_config_from_flags_registered_example =
    set_config_from_flags_registered (λ key. some FlagValue.another) []

abbrev parts : Parts ℕ
parts = record {
  machine = record {
    name = codes "box";
    set_ip_address = λ ip now. now;
    sleep = λ ms now. suc now;
    vbox = vbox;
  };
  lib = lib;
  decimal = λ n. codes "22";
  host_interfaces = record { interfaces = pure []; addrs = λ i. pure [] };
  random_int = λ n now. (4, now);
  listen = λ port. pure (ℤ.pos 50022);
  read_log = pure (codes "VM started" ∷ []);
  wait_for_ip = pure tt;
  ssh_port = λ now. ℤ.pos 0;
  set_ssh_port = λ port now. now;
}

-- The machine is off at first, and again from the eighth step on; its adapter is gone from the fourth
-- step on.
abbrev losing_vbox : VboxManager ℕ
losing_vbox = record {
  run = λ args now. (ok tt, suc now);
  run_out = λ args now. (ok (if ltb now 4 then one_adapter else []), now);
  run_out_err = λ args now. (
    (
      codes (
          if ltb now 1
          then "VMState=\"poweroff\""
          else if ltb now 8
          then "VMState=\"running\""
          else "VMState=\"poweroff\""),
      [],
      none,
    ),
    now,
  );
}

abbrev losing : Parts ℕ
losing = record parts { machine = record (parts.machine) { vbox = losing_vbox } }
