-- ===== src/VirtualBox/Creating.antt =====
-- drivers/virtualbox/virtualbox.go: the check before a creation, and creating a machine.
pub mod Shares
use p2box.Base.{
  ℕ, ℤ, Bool, true, false, String, Text, codes, split, trim_space, List, [], ◌∷◌, ◌++◌, Option,
  none, some, if◌then◌else◌, str_eq, text_eq, ltb, ◌&&◌, not, ◌==◌,
}
use p2box.Go.{
  Error, message, must_enable_vtx, not_exist, Result, ok, err, Go, pure, fail, lift, ◌>>=◌, ◌>>◌,
}
use p2box.Drivers.{call}
use p2box.Drivers.BaseDriver
use p2box.Drivers.BaseDriver.{BaseDriver, is_empty, resolve_store_path}
use p2box.VirtualBox.Vbm.{VboxManager, args_of}
use p2box.VirtualBox.Flags.{Settings}
use p2box.VirtualBox.Version.{check_vbox_manage_version, less}
use p2box.VirtualBox.Vtx.{is_vtx_disabled}
use p2box.VirtualBox.Network.{NetLibrary}
use p2box.VirtualBox.Network.Adapters.{list_host_only_adapters}

abbrev pub greater : ℤ → ℕ → Bool
greater (ℤ.pos m) n = ltb n m
greater (ℤ.negsuc m) n = false

-- The number of CPUs of the machine: that of the host where it is below 1, and 32 at most.
unfoldable pub cpus_of : ℤ → ℤ → ℤ
cpus_of num_cpu cpu =
    let cpus = (if less cpu 1 then num_cpu else cpu) in if greater cpus 32 then ℤ.pos 32 else cpus

-- strings.Join with a separator of one byte
abbrev pub join_with : ℕ → List Text → Text
join_with sep [] = []
join_with sep (s ∷ []) = s
join_with sep (s ∷ t ∷ rest) = s ++ (sep ∷ join_with sep (t ∷ rest))

abbrev pub last_and_others : List Text → List Text × Text
last_and_others [] = ([], [])
last_and_others (s ∷ []) = ([], s)
last_and_others (s ∷ t ∷ rest) =
    let (others, last) = last_and_others (t ∷ rest) in (s ∷ others, last)

-- The directory, and the name of the share behind the last colon.
unfoldable pub parse_share_folder : Text → Text × Text
parse_share_folder share_folder =
    let (others, last) = last_and_others (split share_folder b':') in (join_with b':' others, last)

-- strings.TrimLeft(s, "/")
abbrev pub trim_slashes : Text → Text
trim_slashes [] = []
trim_slashes (c ∷ s) = let rest = trim_slashes s in if c == b'/' then rest else c ∷ s

abbrev pub hyper_v : Error
hyper_v = message "This computer is running Hyper-V."

-- What a creation works with: the field of the base driver in the world, the package b2p, ssh keys
-- and disks, `os.Stat`, the file /proc/cpuinfo, and the platform: the number of its CPUs, whether it
-- is a Windows of 32 bits, whether it runs Hyper-V, and the name and directory of its share.
pub record Workshop (W : Type 0) : Type 0 where
  pub vbox : VboxManager W
  pub lib : NetLibrary
  pub base : W → BaseDriver
  pub set_base : BaseDriver → W → W
  pub join : List Text → Text
  pub decimal : ℤ → Text
  pub atoi : Text → Option ℤ
  pub update_iso_cache : Text → String → Go W Unit
  pub copy_iso_to_machine_dir : Text → Text → String → Go W Unit
  pub generate_key : Text → Go W Unit
  pub create_disk : ℤ → Text → Text → Go W Unit
  pub stat : Text → Go W Unit
  pub read_cpuinfo : Go W Text
  pub num_cpu : ℤ
  pub is_windows_386 : Bool
  pub is_hyper_v_installed : Bool
  pub share_name_and_dir : Text × Text

abbrev on_off : Bool → Text
on_off b = if b then codes "on" else codes "off"

module _ {W : Type 0} (p : Workshop W) (settings : Settings) where
  -- A method of the base driver, on the field of the world.
  abbrev on_base : {A : Type 0} → (BaseDriver → A × BaseDriver) → Go W A
  on_base m w = let (a, d) = m (p.base w) in (ok a, p.set_base d w)

  abbrev in_store : Text → Go W Text
  in_store file w = (ok (resolve_store_path p.join file (p.base w)), w)

  abbrev pub check_version : Go W Unit
  check_version = do
    version ← p.vbox.run_out (args_of ("--version" ∷ []))
    elim (check_vbox_manage_version p.atoi (trim_space version)) [
      | none ↦ pure tt
      | some e ↦ fail e
    ]

  abbrev pub check_hardware : Go W Unit
  check_hardware =
      if settings.no_vtx_check
      then pure tt
      else if p.is_hyper_v_installed
      then fail hyper_v
      else is_vtx_disabled p.read_cpuinfo >>= λ disabled.
          if disabled then fail must_enable_vtx else pure tt

  unfoldable pub pre_create_check : Go W Unit
  pre_create_check = do
    check_version
    check_hardware
    λ w. p.update_iso_cache (p.base w).store_path settings.boot2podman_url w
    nets ← list_host_only_adapters p.lib p.vbox
    pure tt

  abbrev name_arg : Go W Text
  name_arg w = (ok (p.base w).machine_name, w)

  abbrev pub longmode : List Text
  longmode = if p.is_windows_386 then args_of ("--longmode" ∷ "on" ∷ []) else []

  abbrev pub modify_flags : Text → List Text
  modify_flags name =
      codes "modifyvm"
      ∷ name
      ∷ (args_of (
            "--firmware" ∷ "bios" ∷ "--bioslogofadein" ∷ "off" ∷ "--bioslogofadeout" ∷ "off"
            ∷ "--bioslogodisplaytime" ∷ "0" ∷ "--biosbootmenu" ∷ "disabled" ∷ "--ostype"
            ∷ "Linux26_64" ∷ [])
          ++ (codes "--cpus"
              ∷ p.decimal (cpus_of p.num_cpu settings.cpu)
              ∷ codes "--memory"
              ∷ p.decimal settings.memory
              ∷ (args_of ("--acpi" ∷ "on" ∷ "--ioapic" ∷ "on" ∷ "--rtcuseutc" ∷ "on" ∷ [])
                  ++ (codes "--natdnshostresolver1"
                      ∷ on_off settings.host_dns_resolver
                      ∷ codes "--natdnsproxy1"
                      ∷ on_off settings.dns_proxy
                      ∷ (args_of (
                            "--cpuhotplug" ∷ "off" ∷ "--pae" ∷ "on" ∷ "--hpet" ∷ "on" ∷ "--hwvirtex"
                            ∷ "on" ∷ "--nestedpaging" ∷ "on" ∷ "--largepages" ∷ "on" ∷ "--vtxvpid"
                            ∷ "on" ∷ "--accelerate3d" ∷ "off" ∷ "--boot1" ∷ "dvd" ∷ [])
                          ++ longmode)))))

  abbrev pub attach : Text → String → String → Text → List Text
  attach name port kind medium =
      codes "storageattach"
      ∷ name
      ∷ (args_of (
            "--storagectl" ∷ "SATA" ∷ "--port" ∷ port ∷ "--device" ∷ "0" ∷ "--type" ∷ kind
            ∷ "--medium" ∷ [])
          ++ (medium ∷ []))

  -- A share without a name is named by its directory.
  abbrev pub name_of_share : Text → Text → Text
  name_of_share dir [] = trim_slashes dir
  name_of_share dir (c ∷ s) = c ∷ s

  abbrev pub add_share : Text → Text → Text → Go W Unit
  add_share name dir share = do
    p.vbox.run (
        codes "sharedfolder"
        ∷ codes "add"
        ∷ name
        ∷ codes "--name"
        ∷ share
        ∷ codes "--hostpath"
        ∷ dir
        ∷ codes "--automount"
        ∷ [])
    p.vbox.run (
        codes "setextradata"
        ∷ name
        ∷ (codes "VBoxInternal2/SharedFoldersEnableSymlinksCreate/" ++ share)
        ∷ codes "1"
        ∷ [])

  -- A directory that is not there is not shared.
  abbrev pub if_there : Text → Text → Text → Result (Unit {0}) → Go W Unit
  if_there name dir share (ok u) = add_share name dir (name_of_share dir share)
  if_there name dir share (err not_exist) = pure tt
  if_there name dir share (err e) = fail e

  abbrev pub share_to_add : Text × Text
  share_to_add =
      if str_eq settings.share_folder ""
      then (let (name, dir) = p.share_name_and_dir in (dir, name))
      else parse_share_folder (codes settings.share_folder)

  unfoldable pub share_folder : Text → Go W Unit
  share_folder name w =
      let (dir, share) = share_to_add in
      let (r, w') = p.stat dir w in
      let added = if_there name dir share r w' in
      if not (is_empty dir) && not settings.no_share then added else (ok tt, w)

  unfoldable pub create_vm : Go W Unit
  create_vm = do
    name ← name_arg
    λ w. p.copy_iso_to_machine_dir (p.base w).store_path name settings.boot2podman_url w
    key ← on_base (BaseDriver.get_ssh_key_path p.join)
    p.generate_key key
    key' ← on_base (BaseDriver.get_ssh_key_path p.join)
    disk ← in_store (codes "disk.vmdk")
    p.create_disk settings.disk_size (key' ++ codes ".pub") disk
    folder ← in_store (codes ".")
    p.vbox.run (
        codes "createvm"
        ∷ codes "--basefolder"
        ∷ folder
        ∷ codes "--name"
        ∷ name
        ∷ codes "--register"
        ∷ [])
    p.vbox.run (modify_flags name)
    p.vbox.run (
        codes "modifyvm"
        ∷ name
        ∷ codes "--nic1"
        ∷ codes "nat"
        ∷ codes "--nictype1"
        ∷ codes settings.nat_nic_type
        ∷ codes "--cableconnected1"
        ∷ codes "on"
        ∷ [])
    p.vbox.run (
        codes "storagectl"
        ∷ name
        ∷ args_of ("--name" ∷ "SATA" ∷ "--add" ∷ "sata" ∷ "--hostiocache" ∷ "on" ∷ []))
    iso ← in_store (codes "boot2podman.iso")
    p.vbox.run (attach name "0" "dvddrive" iso)
    p.vbox.run (attach name "1" "hdd" disk)
    p.vbox.run (
        codes "guestproperty"
        ∷ codes "set"
        ∷ name
        ∷ args_of ("/VirtualBox/GuestAdd/SharedFolders/MountPrefix" ∷ "/" ∷ []))
    p.vbox.run (
        codes "guestproperty"
        ∷ codes "set"
        ∷ name
        ∷ args_of ("/VirtualBox/GuestAdd/SharedFolders/MountDir" ∷ "/" ∷ []))
    share_folder name
