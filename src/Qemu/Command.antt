-- ===== src/Qemu/Command.antt =====
-- drivers/qemu/qemu.go: the arguments with which Start runs QEMU.
pub mod Pairs
use p2box.Base.{ℤ, Bool, String, List, [], ◌∷◌, ◌++◌, ◌<>◌, str_eq, if◌then◌else◌}
use p2box.Qemu.{Driver, machine_dir, qcow2_path, monitor_path, pidfile_path}

-- `join` is filepath.Join, and `decimal` the verb "%d".
module _ (join : List String → String) (decimal : ℤ → String) (d : Driver) where
  abbrev pub display_args : List String
  display_args =
      if d.display
      then (if str_eq d.display_type "" then [] else "-display" ∷ d.display_type ∷ [])
      else if d.nographic
      then "-nographic" ∷ []
      else "-display" ∷ "none" ∷ []

  abbrev pub size_args : List String
  size_args = "-m" ∷ decimal d.memory ∷ "-smp" ∷ decimal d.cpu ∷ "-boot" ∷ "d" ∷ []

  abbrev pub iso_path : String
  iso_path = join (machine_dir join d ∷ "boot2podman.iso" ∷ [])

  abbrev pub cdrom_args : List String
  cdrom_args =
      if d.virtio_drives
      then "-drive" ∷ ("file=" <> iso_path <> ",index=2,media=cdrom,if=virtio") ∷ []
      else "-cdrom" ∷ iso_path ∷ []

  abbrev pub monitor_args : List String
  monitor_args =
      "-qmp"
      ∷ ("unix:" <> monitor_path join d <> ",server,nowait")
      ∷ "-pidfile"
      ∷ pidfile_path join d
      ∷ []

  abbrev pub user_options : String
  user_options = ",hostfwd=tcp::" <> decimal d.ssh_port <> "-:22,hostname=" <> d.machine_name

  abbrev pub vlan_args : String → List String
  vlan_args options = "-net" ∷ "nic,vlan=0,model=virtio" ∷ "-net" ∷ options ∷ []

  abbrev pub netdev_args : String → List String
  netdev_args options = "-device" ∷ "virtio-net,netdev=n0" ∷ "-netdev" ∷ options ∷ []

  abbrev pub vlan_network_args : List String
  vlan_network_args =
      if str_eq d.network "user"
      then vlan_args ("user,vlan=0" <> user_options)
      else if str_eq d.network "tap"
      then vlan_args ("tap,vlan=0,ifname=" <> d.network_interface <> ",script=no,downscript=no")
      else if str_eq d.network "bridge"
      then vlan_args ("bridge,vlan=0,br=" <> d.network_bridge)
      else []

  abbrev pub netdev_network_args : List String
  netdev_network_args =
      if str_eq d.network "user"
      then netdev_args ("user,id=n0" <> user_options)
      else if str_eq d.network "tap"
      then netdev_args ("tap,id=n0,ifname=" <> d.network_interface <> ",script=no,downscript=no")
      else if str_eq d.network "bridge"
      then netdev_args ("bridge,id=n0,br=" <> d.network_bridge)
      else []

  -- A network that is not known is logged, and the machine has none.
  unfoldable pub network_args : List String
  network_args = if d.net_vlan then vlan_network_args else netdev_network_args

  abbrev pub hvf_args : List String
  hvf_args = if d.hvf then "-accel" ∷ "hvf" ∷ "-cpu" ∷ "host" ∷ [] else []

  abbrev pub kvm_args : Bool → List String
  kvm_args has_kvm = if has_kvm then "-enable-kvm" ∷ [] else []

  abbrev pub config_args : List String
  config_args =
      if str_eq d.cloud_config_root ""
      then []
      else "-fsdev"
        ∷ ("local,security_model=passthrough,readonly,id=fsdev0,path=" <> d.cloud_config_root)
        ∷ "-device"
        ∷ "virtio-9p-pci,id=fs0,fsdev=fsdev0,mount_tag=config-2"
        ∷ []

  abbrev pub virtio_disk : String
  virtio_disk = "file=" <> qcow2_path join d <> ",index=0,media=disk,if=virtio"

  abbrev pub disk_args : List String
  disk_args = if d.virtio_drives then "-drive" ∷ virtio_disk ∷ [] else qcow2_path join d ∷ []

  -- `has_kvm` says whether /dev/kvm is there.
  unfoldable pub start_command : Bool → List String
  start_command has_kvm =
      display_args
      ++ (size_args
          ++ (cdrom_args
              ++ (monitor_args
                  ++ (network_args
                      ++ ("-daemonize"
                          ∷ (hvf_args ++ (kvm_args has_kvm ++ (config_args ++ disk_args))))))))
