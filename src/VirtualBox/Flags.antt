-- ===== src/VirtualBox/Flags.antt =====
-- drivers/virtualbox/virtualbox.go: the settings of a machine, and the flags that they come from.
pub mod Registered
use p2box.Base.{ℤ, Bool, true, false, String, List, [], ◌∷◌, not}
use p2box.Go.{Go, pure, ◌>>=◌}
use p2box.Drivers.{Flag, string_flag, string_slice_flag, int_flag, bool_flag, DriverOptions, call}

abbrev pub default_cpu : ℤ
default_cpu = ℤ.pos 1

abbrev pub default_memory : ℤ
default_memory = ℤ.pos 1024

abbrev pub default_boot2podman_url : String
default_boot2podman_url = ""

abbrev pub default_host_only_cidr : String
default_host_only_cidr = "192.168.99.1/24"

abbrev pub default_host_only_nictype : String
default_host_only_nictype = "82540EM"

abbrev pub default_host_only_promisc_mode : String
default_host_only_promisc_mode = "deny"

abbrev pub default_ui_type : String
default_ui_type = "headless"

abbrev pub default_host_only_no_dhcp : Bool
default_host_only_no_dhcp = false

abbrev pub default_disk_size : ℤ
default_disk_size = ℤ.pos 20000

abbrev pub default_dns_proxy : Bool
default_dns_proxy = true

abbrev pub default_dns_resolver : Bool
default_dns_resolver = false

-- `GetCreateFlags`
unfoldable pub get_create_flags : List Flag
get_create_flags =
    int_flag "virtualbox-memory" "Size of memory for host in MB" "VIRTUALBOX_MEMORY_SIZE"
      default_memory
    ∷ int_flag "virtualbox-cpu-count"
        "number of CPUs for the machine (-1 to use the number of CPUs available)"
        "VIRTUALBOX_CPU_COUNT" default_cpu
    ∷ int_flag "virtualbox-disk-size" "Size of disk for host in MB" "VIRTUALBOX_DISK_SIZE"
        default_disk_size
    ∷ string_flag "virtualbox-boot2podman-url"
        "The URL of the boot2podman image. Defaults to the latest available version"
        "VIRTUALBOX_BOOT2PODMAN_URL" default_boot2podman_url
    ∷ bool_flag "virtualbox-host-dns-resolver" "Use the host DNS resolver"
        "VIRTUALBOX_HOST_DNS_RESOLVER"
    ∷ string_flag "virtualbox-nat-nictype" "Specify the Network Adapter Type"
        "VIRTUALBOX_NAT_NICTYPE" default_host_only_nictype
    ∷ string_flag "virtualbox-hostonly-cidr" "Specify the Host Only CIDR" "VIRTUALBOX_HOSTONLY_CIDR"
        default_host_only_cidr
    ∷ string_flag "virtualbox-hostonly-nictype" "Specify the Host Only Network Adapter Type"
        "VIRTUALBOX_HOSTONLY_NIC_TYPE" default_host_only_nictype
    ∷ string_flag "virtualbox-hostonly-nicpromisc"
        "Specify the Host Only Network Adapter Promiscuous Mode" "VIRTUALBOX_HOSTONLY_NIC_PROMISC"
        default_host_only_promisc_mode
    ∷ string_flag "virtualbox-ui-type" "Specify the UI Type: (gui|sdl|headless|separate)"
        "VIRTUALBOX_UI_TYPE" default_ui_type
    ∷ bool_flag "virtualbox-hostonly-no-dhcp" "Disable the Host Only DHCP Server"
        "VIRTUALBOX_HOSTONLY_NO_DHCP"
    ∷ bool_flag "virtualbox-no-share" "Disable the mount of your home directory"
        "VIRTUALBOX_NO_SHARE"
    ∷ bool_flag "virtualbox-no-dns-proxy" "Disable proxying all DNS requests to the host"
        "VIRTUALBOX_NO_DNS_PROXY"
    ∷ bool_flag "virtualbox-no-vtx-check"
        "Disable checking for the availability of hardware virtualization before the vm is started"
        "VIRTUALBOX_NO_VTX_CHECK"
    ∷ string_flag "virtualbox-share-folder"
        "Mount the specified directory instead of the default home location. Format: dir:name"
        "VIRTUALBOX_SHARE_FOLDER" ""
    ∷ []

-- The fields of `Driver` that the flags set, with the user of `BaseDriver`.
pub record Settings : Type 0 where
  pub cpu : ℤ
  pub memory : ℤ
  pub disk_size : ℤ
  pub nat_nic_type : String
  pub boot2podman_url : String
  pub host_dns_resolver : Bool
  pub host_only_cidr : String
  pub host_only_nic_type : String
  pub host_only_promisc_mode : String
  pub ui_type : String
  pub host_only_no_dhcp : Bool
  pub no_share : Bool
  pub dns_proxy : Bool
  pub no_vtx_check : Bool
  pub share_folder : String
  pub ssh_user : String

-- The settings of `NewDriver`.
abbrev pub new_driver : Settings
new_driver = record {
  cpu = default_cpu;
  memory = default_memory;
  disk_size = default_disk_size;
  nat_nic_type = default_host_only_nictype;
  boot2podman_url = "";
  host_dns_resolver = default_dns_resolver;
  host_only_cidr = default_host_only_cidr;
  host_only_nic_type = default_host_only_nictype;
  host_only_promisc_mode = default_host_only_promisc_mode;
  ui_type = default_ui_type;
  host_only_no_dhcp = default_host_only_no_dhcp;
  no_share = false;
  dns_proxy = default_dns_proxy;
  no_vtx_check = false;
  share_folder = "";
  ssh_user = "";
}

module _ {W : Type 0} (flags : DriverOptions W) where
  unfoldable pub set_config_from_flags : Go W Settings
  set_config_from_flags = do
    cpu ← call (flags.int "virtualbox-cpu-count")
    memory ← call (flags.int "virtualbox-memory")
    disk_size ← call (flags.int "virtualbox-disk-size")
    boot2podman_url ← call (flags.string "virtualbox-boot2podman-url")
    host_dns_resolver ← call (flags.bool "virtualbox-host-dns-resolver")
    nat_nic_type ← call (flags.string "virtualbox-nat-nictype")
    host_only_cidr ← call (flags.string "virtualbox-hostonly-cidr")
    host_only_nic_type ← call (flags.string "virtualbox-hostonly-nictype")
    host_only_promisc_mode ← call (flags.string "virtualbox-hostonly-nicpromisc")
    ui_type ← call (flags.string "virtualbox-ui-type")
    host_only_no_dhcp ← call (flags.bool "virtualbox-hostonly-no-dhcp")
    no_share ← call (flags.bool "virtualbox-no-share")
    no_dns_proxy ← call (flags.bool "virtualbox-no-dns-proxy")
    no_vtx_check ← call (flags.bool "virtualbox-no-vtx-check")
    share_folder ← call (flags.string "virtualbox-share-folder")
    pure (record {
      cpu = cpu;
      memory = memory;
      disk_size = disk_size;
      boot2podman_url = boot2podman_url;
      host_dns_resolver = host_dns_resolver;
      nat_nic_type = nat_nic_type;
      host_only_cidr = host_only_cidr;
      host_only_nic_type = host_only_nic_type;
      host_only_promisc_mode = host_only_promisc_mode;
      ui_type = ui_type;
      host_only_no_dhcp = host_only_no_dhcp;
      no_share = no_share;
      dns_proxy = not no_dns_proxy;
      no_vtx_check = no_vtx_check;
      share_folder = share_folder;
      ssh_user = "tc";
    })
