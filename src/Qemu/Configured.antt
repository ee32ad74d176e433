-- ===== src/Qemu/Configured.antt =====
-- The settings of a machine as the command line gives them.
use p2box.Base.{ℤ, Bool, true, false, String, ◌≡◌, refl, ◌<>◌, fun_ext}
use p2box.Go.{ok}
use p2box.Drivers.Check.{as_int, as_string, as_bool, or_else}
use p2box.Rpc.Flags.{rpc_options, flags_string, flags_int, flags_bool}
use p2box.Commands.Create.Values.{CommandLine, get_driver_opts}
use p2box.Commands.Create.Reads.{value_of, get_driver_opts-value_of}
use p2box.Qemu.{Driver}
use p2box.Qemu.Flags.{get_create_flags, set_config_from_flags}

-- The values that the flags of the driver have on the command line, or else by default.
module _ (c : CommandLine) where
  abbrev pub text_of_flag : String → String
  text_of_flag key = or_else (as_string (value_of c get_create_flags key)) ""

  abbrev pub number_of_flag : String → ℤ
  number_of_flag key = or_else (as_int (value_of c get_create_flags key)) (ℤ.pos 0)

  abbrev pub truth_of_flag : String → Bool
  truth_of_flag key = or_else (as_bool (value_of c get_create_flags key)) false

  abbrev pub configured_by : (String → String → String → String) → Driver → Driver
  configured_by resolve d = record d {
    memory = number_of_flag "qemu-memory";
    disk_size = number_of_flag "qemu-disk-size";
    cpu = number_of_flag "qemu-cpu-count";
    program = text_of_flag "qemu-program";
    display = truth_of_flag "qemu-display";
    display_type = text_of_flag "qemu-display-type";
    net_vlan = truth_of_flag "qemu-net-vlan";
    nographic = truth_of_flag "qemu-nographic";
    virtio_drives = truth_of_flag "qemu-virtio-drives";
    hvf = truth_of_flag "qemu-hvf";
    network = text_of_flag "qemu-network";
    boot2podman_url = text_of_flag "qemu-boot2podman-url";
    network_interface = text_of_flag "qemu-network-interface";
    network_address = text_of_flag "qemu-network-address";
    network_bridge = text_of_flag "qemu-network-bridge";
    cache_mode = text_of_flag "qemu-cache-mode";
    io_mode = text_of_flag "qemu-io-mode";
    ssh_user = text_of_flag "qemu-ssh-user";
    local_ports = text_of_flag "qemu-localports";
    first_query = true;
    ssh_port = ℤ.pos 22;
    disk_path = resolve d.store_path d.machine_name (d.machine_name <> ".img");
  }

-- The driver that the create command hands the values of the command line to takes each setting
-- from its flag, read as the kind that the flag has: the value of the command line where it names
-- the flag and has one, and else the registered default.
pub set_config_from_flags-configured :
    {W : Type 0} (c : CommandLine) (resolve : String → String → String → String) (d : Driver)
    (w : W)
    → set_config_from_flags resolve (rpc_options (get_driver_opts c get_create_flags)) d w
      ≡ (ok (configured_by c resolve d), w)
unfolding set_config_from_flags flags_string flags_int flags_bool
set_config_from_flags-configured c resolve d w =
    rw (fun_ext (get_driver_opts-value_of c get_create_flags)) refl
