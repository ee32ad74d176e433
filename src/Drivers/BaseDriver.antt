-- ===== src/Drivers/BaseDriver.antt =====
-- libmachine/drivers/base.go: the fields and methods that drivers share.
use p2box.Base.{
  ℤ, Bool, true, false, String, Text, codes, List, [], ◌∷◌, ◌==◌, str_eq, if◌then◌else◌, ◌&&◌, not,
}
use p2box.Go.{message, ok, err, Go}
use p2box.Drivers.{Method}

pub record BaseDriver : Type 0 where
  pub ip_address : Text
  pub machine_name : Text
  pub ssh_user : Text
  pub ssh_port : ℤ
  pub ssh_key_path : Text
  pub store_path : Text

abbrev pub default_ssh_user : Text
default_ssh_user = codes "root"

abbrev pub default_ssh_port : ℤ
default_ssh_port = ℤ.pos 22

abbrev pub default_engine_install_url : String
default_engine_install_url = "https://podman.io"

abbrev pub is_empty : Text → Bool
is_empty [] = true
is_empty (c ∷ s) = false

abbrev is_unset : ℤ → Bool
is_unset (ℤ.pos n) = n == 0
is_unset (ℤ.negsuc n) = false

unfoldable pub base_driver_name : Method BaseDriver Text
base_driver_name d = (codes "unknown", d)

unfoldable pub get_machine_name : Method BaseDriver Text
get_machine_name d = (d.machine_name, d)

unfoldable pub get_ip : Go BaseDriver Text
get_ip d =
    if is_empty d.ip_address
    then (err (message "IP address is not set"), d)
    else (ok d.ip_address, d)

unfoldable pub get_ssh_port : Go BaseDriver ℤ
get_ssh_port d =
    let d' = (if is_unset d.ssh_port then record d { ssh_port = default_ssh_port } else d) in
    (ok d'.ssh_port, d')

unfoldable pub get_ssh_username : Method BaseDriver Text
get_ssh_username d =
    let d' = (if is_empty d.ssh_user then record d { ssh_user = default_ssh_user } else d) in
    (d'.ssh_user, d')

unfoldable pub pre_create_check : Go BaseDriver Unit
pre_create_check d = (ok tt, d)

-- `join` is filepath.Join.
module _ (join : List Text → Text) where
  unfoldable pub resolve_store_path : Text → BaseDriver → Text
  resolve_store_path file d = join (d.store_path ∷ codes "machines" ∷ d.machine_name ∷ file ∷ [])

  unfoldable pub get_ssh_key_path : Method BaseDriver Text
  get_ssh_key_path d =
      let d' =
        (if is_empty d.ssh_key_path
          then record d { ssh_key_path = resolve_store_path (codes "id_rsa") d }
          else d) in
      (d'.ssh_key_path, d')

unfoldable pub engine_install_url_set : String → Bool
engine_install_url_set url = not (str_eq url default_engine_install_url) && not (str_eq url "")
