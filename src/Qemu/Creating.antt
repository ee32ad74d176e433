-- ===== src/Qemu/Creating.antt =====
-- drivers/qemu/qemu.go: creating a machine, with its disk image.
use p2box.Base.{
  codes, ℕ, ℤ, String, Text, List, [], ◌∷◌, Option, none, some, str_eq, ◌<>◌, if◌then◌else◌,
}
use p2box.Go.{Result, ok, err, Go, lift, ◌>>=◌, ◌>>◌}
use p2box.Qemu.{Driver, ssh_key_path, qcow2_path}
use p2box.Qemu.Ports.{
  PortMachinery, parse_port_range, get_available_tcp_port_from_range, engine_port,
}
use p2box.Qemu.Starting.{Runner, cmd_out_err, start}

-- The image that is copied, the key that is made, the files, and archive/tar: what is written
-- before the key is read, and the whole archive.
pub record Site (W : Type 0) : Type 0 where
  pub copy_iso_to_machine_dir : String → String → Go W Unit
  pub generate_ssh_key : String → Go W Unit
  pub read_file : String → Go W Text
  pub write_file : String → Text → Go W Unit
  pub tar_start : Result (Unit {0})
  pub tar_of_key : Text → Result Text

module _ {W : Type 0} (site : Site W) (r : Runner W) (join : List String → String)
    (decimal : ℤ → String) where
  abbrev pub raw_path : Driver → String
  raw_path d = qcow2_path join d <> ".raw"

  abbrev pub convert_image : Driver → Go W Unit
  convert_image d = do
    cmd_out_err r "qemu-img"
        ("convert" ∷ "-f" ∷ "raw" ∷ "-O" ∷ "qcow2" ∷ raw_path d ∷ qcow2_path join d ∷ [])
    cmd_out_err r "qemu-img"
        ("resize" ∷ qcow2_path join d ∷ ("+" <> decimal d.disk_size <> "M") ∷ [])

  -- if err := ioutil.WriteFile(...); err != nil { return nil }
  abbrev pub image_written : Driver → Result (Unit {0}) → Go W Unit
  image_written d (ok u) w = convert_image d w
  image_written d (err e) w = (ok tt, w)

  abbrev pub image_of_key : Go W Text → Go W Text
  image_of_key key = do lift site.tar_start; pub_key ← key; lift (site.tar_of_key pub_key)

  unfoldable pub generate_disk_image : Driver → Go W Unit
  generate_disk_image d = do
    archive ← image_of_key (site.read_file (ssh_key_path join d <> ".pub"))
    λ w. let (res, w') = site.write_file (raw_path d) archive w in image_written d res w'

  -- The image, the key and the disk.
  abbrev pub prepare : Driver → Go W Unit
  prepare d = do
    site.copy_iso_to_machine_dir d.boot2podman_url d.machine_name
    site.generate_ssh_key (ssh_key_path join d)
    generate_disk_image d

  module _ (atoi : Text → Option ℕ) (ports : PortMachinery W) where
    abbrev pub with_engine :
        Driver → Option (Result ℕ × W) → Option (Result (Unit {0}) × (Driver × W))
    with_engine d none = none
    with_engine d (some (ok p, w)) = some (ok tt, (record d { engine_port = ℤ.pos p }, w))
    with_engine d (some (err e, w)) = some (err e, (record d { engine_port = ℤ.pos 0 }, w))

    -- The port is assigned before its error is looked at.
    abbrev pub with_ssh :
        ℕ → ℕ → ℕ → Driver → Result ℕ × W → Option (Result (Unit {0}) × (Driver × W))
    with_ssh fuel min_port max_port d (err e, w) =
        some (err e, (record d { ssh_port = ℤ.pos 0 }, w))
    with_ssh fuel min_port max_port d (ok p, w) =
        with_engine (record d { ssh_port = ℤ.pos p }) (engine_port ports fuel min_port max_port p w)

    abbrev pub with_range :
        ℕ → Driver → Result (ℕ × ℕ) → W → Option (Result (Unit {0}) × (Driver × W))
    with_range fuel d (err e) w = some (err e, (d, w))
    with_range fuel d (ok (min_port, max_port)) w =
        with_ssh fuel min_port max_port d
          (get_available_tcp_port_from_range ports min_port max_port w)

    -- The ports that a machine of the network "user" gets.
    unfoldable pub choose_ports : ℕ → Driver → W → Option (Result (Unit {0}) × (Driver × W))
    choose_ports fuel d w = with_range fuel d (parse_port_range atoi (codes d.local_ports)) w

    abbrev pub kept :
        Driver → Option (Result (Unit {0}) × W) → Option (Result (Unit {0}) × (Driver × W))
    kept d none = none
    kept d (some (u, w)) = some (u, (d, w))

    abbrev pub then_start :
        ℕ → Driver → Result (Unit {0}) × W → Option (Result (Unit {0}) × (Driver × W))
    then_start fuel d (ok u, w) = kept d (start r join decimal fuel d w)
    then_start fuel d (err e, w) = some (err e, (d, w))

    abbrev pub then_prepare :
        ℕ → Option (Result (Unit {0}) × (Driver × W)) → Option (Result (Unit {0}) × (Driver × W))
    then_prepare fuel none = none
    then_prepare fuel (some (err e, (d, w))) = some (err e, (d, w))
    then_prepare fuel (some (ok u, (d, w))) = then_start fuel d (prepare d w)

    -- Fuel is for the choice of the port of the engine and for the wait for the machine, each.
    unfoldable pub create : ℕ → Driver → W → Option (Result (Unit {0}) × (Driver × W))
    create fuel d w =
        then_prepare fuel
          (if str_eq d.network "user" then choose_ports fuel d w else some (ok tt, (d, w)))
