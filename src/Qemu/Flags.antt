-- ===== src/Qemu/Flags.antt =====
-- drivers/qemu/qemu.go: the flags of the driver, and the settings that they give.
use p2box.Base.{ℤ, true, String, List, [], ◌∷◌, ◌<>◌}
use p2box.Go.{Go, pure, ◌>>=◌}
use p2box.Drivers.{Flag, string_flag, int_flag, bool_flag, DriverOptions, call}
use p2box.Qemu.{Driver, qemu_ssh_user}

unfoldable pub get_create_flags : List Flag
get_create_flags =
    int_flag "qemu-memory" "Size of memory for host in MB" "" (ℤ.pos 1024)
    ∷ int_flag "qemu-disk-size" "Size of disk for host in MB" "" (ℤ.pos 20000)
    ∷ int_flag "qemu-cpu-count" "Number of CPUs" "" (ℤ.pos 1)
    ∷ string_flag "qemu-program" "Name of program to run" "" "qemu-system-x86_64"
    ∷ bool_flag "qemu-display" "Display video output" ""
    ∷ string_flag "qemu-display-type" "Select type of display" "QEMU_DISPLAY_TYPE" ""
    ∷ bool_flag "qemu-net-vlan" "Use -net vlan instead of -netdev" ""
    ∷ bool_flag "qemu-nographic" "Use -nographic instead of -display none" ""
    ∷ bool_flag "qemu-virtio-drives" "Use virtio for drives (cdrom and disk)" "QEMU_VIRTIO_DRIVES"
    ∷ bool_flag "qemu-hvf" "Use the macOS Hypervisor.framework" ""
    ∷ string_flag "qemu-network" "Name of network to connect to (user, tap, bridge)" "" "user"
    ∷ string_flag "qemu-boot2podman-url"
        "The URL of the boot2podman image. Defaults to the latest available version"
        "QEMU_BOOT2PODMAN_URL" ""
    ∷ string_flag "qemu-network-interface"
        "Name of the network interface to be used for networking (for tap)" "" "tap0"
    ∷ string_flag "qemu-network-address"
        "IP of the network adress to be used for networking (for tap)" "" ""
    ∷ string_flag "qemu-network-bridge"
        "Name of the network bridge to be used for networking (for bridge)" "" "br0"
    ∷ string_flag "qemu-cache-mode"
        "Disk cache mode: default, none, writethrough, writeback, directsync, or unsafe" ""
        "default"
    ∷ string_flag "qemu-io-mode" "Disk IO mode: threads, native" "" "threads"
    ∷ string_flag "qemu-ssh-user" "SSH username" "QEMU_SSH_USER" qemu_ssh_user
    ∷ string_flag "qemu-localports" "Port range to bind local SSH and engine ports"
        "QEMU_LOCALPORTS" ""
    ∷ []

-- `resolve` is `ResolveStorePath` of a driver with a store path and a machine name.
module _ {W : Type 0} (resolve : String → String → String → String) (flags : DriverOptions W) where
  abbrev pub set_machine : Driver → Go W Driver
  set_machine d = do
    memory ← call (flags.int "qemu-memory")
    disk_size ← call (flags.int "qemu-disk-size")
    cpu ← call (flags.int "qemu-cpu-count")
    program ← call (flags.string "qemu-program")
    display ← call (flags.bool "qemu-display")
    display_type ← call (flags.string "qemu-display-type")
    net_vlan ← call (flags.bool "qemu-net-vlan")
    nographic ← call (flags.bool "qemu-nographic")
    virtio_drives ← call (flags.bool "qemu-virtio-drives")
    hvf ← call (flags.bool "qemu-hvf")
    pure (record d {
      memory = memory;
      disk_size = disk_size;
      cpu = cpu;
      program = program;
      display = display;
      display_type = display_type;
      net_vlan = net_vlan;
      nographic = nographic;
      virtio_drives = virtio_drives;
      hvf = hvf;
    })

  abbrev pub set_network : Driver → Go W Driver
  set_network d = do
    network ← call (flags.string "qemu-network")
    boot2podman_url ← call (flags.string "qemu-boot2podman-url")
    network_interface ← call (flags.string "qemu-network-interface")
    network_address ← call (flags.string "qemu-network-address")
    network_bridge ← call (flags.string "qemu-network-bridge")
    cache_mode ← call (flags.string "qemu-cache-mode")
    io_mode ← call (flags.string "qemu-io-mode")
    ssh_user ← call (flags.string "qemu-ssh-user")
    local_ports ← call (flags.string "qemu-localports")
    pure (record d {
      network = network;
      boot2podman_url = boot2podman_url;
      network_interface = network_interface;
      network_address = network_address;
      network_bridge = network_bridge;
      cache_mode = cache_mode;
      io_mode = io_mode;
      ssh_user = ssh_user;
      local_ports = local_ports;
      first_query = true;
      ssh_port = ℤ.pos 22;
      disk_path = resolve d.store_path d.machine_name (d.machine_name <> ".img");
    })

  unfoldable pub set_config_from_flags : Driver → Go W Driver
  set_config_from_flags d = do d' ← set_machine d; set_network d'
