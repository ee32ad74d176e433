-- ===== src/Qemu.antt =====
-- drivers/qemu/qemu.go: the driver for QEMU. This file: its settings and paths.
pub mod Flags
pub mod Configured
pub mod Monitor
pub mod Ports
pub mod Ranges
pub mod Command
pub mod Starting
pub mod Creating
use p2box.Base.{ℤ, Bool, false, String, Text, List, [], ◌∷◌, if◌then◌else◌, str_eq}

pub record Driver : Type 0 where
  pub machine_name : String
  pub store_path : String
  pub ssh_user : String
  pub ssh_port : ℤ
  pub engine_port : ℤ
  pub first_query : Bool
  pub memory : ℤ
  pub disk_size : ℤ
  pub cpu : ℤ
  pub program : String
  pub display : Bool
  pub display_type : String
  pub net_vlan : Bool
  pub nographic : Bool
  pub virtio_drives : Bool
  pub hvf : Bool
  pub network : String
  pub private_network : String
  pub boot2podman_url : String
  pub network_interface : String
  pub network_address : String
  pub network_bridge : String
  pub disk_path : String
  pub cache_mode : String
  pub io_mode : String
  pub cloud_config_root : String
  pub local_ports : String

abbrev pub qemu_ssh_user : String
qemu_ssh_user = "tc"

-- The fields that the source does not set here have their zero values.
abbrev pub new_driver : String → String → Driver
new_driver host_name store_path = record {
  machine_name = host_name;
  store_path = store_path;
  ssh_user = qemu_ssh_user;
  ssh_port = ℤ.pos 0;
  engine_port = ℤ.pos 0;
  first_query = false;
  memory = ℤ.pos 0;
  disk_size = ℤ.pos 0;
  cpu = ℤ.pos 0;
  program = "";
  display = false;
  display_type = "";
  net_vlan = false;
  nographic = false;
  virtio_drives = false;
  hvf = false;
  network = "";
  private_network = "podman-machines";
  boot2podman_url = "";
  network_interface = "";
  network_address = "";
  network_bridge = "";
  disk_path = "";
  cache_mode = "";
  io_mode = "";
  cloud_config_root = "";
  local_ports = "";
}

-- `join` is filepath.Join.
module _ (join : List String → String) (d : Driver) where
  -- filepath.Join(d.StorePath, "machines", d.GetMachineName())
  abbrev pub machine_dir : String
  machine_dir = join (d.store_path ∷ "machines" ∷ d.machine_name ∷ [])

  abbrev pub ssh_key_path : String
  ssh_key_path = join (machine_dir ∷ "id_rsa" ∷ [])

  abbrev pub qcow2_path : String
  qcow2_path = join (machine_dir ∷ "disk.qcow2" ∷ [])

  abbrev pub monitor_path : String
  monitor_path = join (machine_dir ∷ "monitor" ∷ [])

  abbrev pub pidfile_path : String
  pidfile_path = join (machine_dir ∷ "qemu.pid" ∷ [])

abbrev pub get_ip : Driver → String
get_ip d = if str_eq d.network "user" then "127.0.0.1" else d.network_address
