-- ===== src/Provision/Certificates.antt =====
-- libmachine/provision/utils.go: certificates on the machine, and its storage driver.
use p2box.Base.{
  String, Text, codes, text_eq, trim_space, List, [], ◌∷◌, ◌++◌, ◌<>◌, str_eq, not, if◌then◌else◌,
}
use p2box.Go.{wrap, Go, pure, ◌>>=◌, ◌>>◌, wrap_with}
use p2box.Drivers.{Driver, call}
use p2box.Cert.{CertOptions, bits}
use p2box.Provision.{AuthOptions}

-- What these functions use of a provisioner, of the files and of package cert. `join` and
-- `path_join` are filepath.Join and path.Join.
pub record AuthWork (W : Type 0) : Type 0 where
  pub driver : Driver W
  pub auth_options : AuthOptions
  pub engine_options_dir : String
  pub ssh_command : String → Go W String
  pub copy_file : String → String → Go W Unit
  pub read_file : String → Go W String
  pub generate_cert : CertOptions → Go W Unit
  pub username : String
  pub join : List String → String
  pub path_join : List String → String

module _ {W : Type 0} (p : AuthWork W) where
  unfoldable pub make_engine_options_dir : Go W Unit
  make_engine_options_dir = do
    out ← p.ssh_command ("sudo mkdir -p " <> p.engine_options_dir)
    pure tt

  unfoldable pub set_remote_auth_options : AuthOptions
  set_remote_auth_options = record (p.auth_options) {
    ca_cert_remote_path = p.path_join (p.engine_options_dir ∷ "ca.pem" ∷ []);
    server_cert_remote_path = p.path_join (p.engine_options_dir ∷ "server.pem" ∷ []);
    server_key_remote_path = p.path_join (p.engine_options_dir ∷ "server-key.pem" ∷ []);
  }

  -- A file goes to the directory of the machine.
  abbrev pub copy_to_machine_dir : String → String → Go W Unit
  copy_to_machine_dir file name =
      wrap_with (wrap ("Copying " <> (name <> " to machine dir failed")))
        (p.copy_file file (p.join (p.auth_options.store_path ∷ name ∷ [])))

  abbrev pub transfer : String → String → Go W Unit
  transfer content remote_path = do
    out ← p.ssh_command ("printf '%s' '" <> (content <> ("' | sudo tee " <> remote_path)))
    pure tt

  abbrev pub server_cert : String → String → CertOptions
  server_cert machine_name ip = record {
    hosts = p.auth_options.server_cert_sans ++ (ip ∷ "localhost" ∷ []);
    cert_file = p.auth_options.server_cert_path;
    key_file = p.auth_options.server_key_path;
    ca_file = p.auth_options.ca_cert_path;
    ca_key_file = p.auth_options.ca_private_key_path;
    org = p.username <> ("." <> machine_name);
    bits = bits;
  }

  -- `ConfigureAuth`
  unfoldable pub configure_auth_with : Go W Unit
  configure_auth_with = do
    machine_name ← call p.driver.get_machine_name
    ip ← p.driver.get_ip
    copy_to_machine_dir p.auth_options.ca_cert_path "ca.pem"
    copy_to_machine_dir p.auth_options.client_cert_path "cert.pem"
    copy_to_machine_dir p.auth_options.client_key_path "key.pem"
    wrap_with (wrap "error generating server cert") (p.generate_cert (server_cert machine_name ip))
    ca_cert ← p.read_file p.auth_options.ca_cert_path
    cert ← p.read_file p.auth_options.server_cert_path
    key ← p.read_file p.auth_options.server_key_path
    transfer ca_cert p.auth_options.ca_cert_remote_path
    transfer cert p.auth_options.server_cert_remote_path
    transfer key p.auth_options.server_key_remote_path

  unfoldable pub get_filesystem_type : String → Go W Text
  get_filesystem_type directory = do
    out ←
        wrap_with (wrap "Error looking up filesystem type")
          (p.ssh_command ("stat -f -c %T " <> directory))
    pure (trim_space (codes out))

  unfoldable pub decide_storage_driver : String → String → Go W String
  decide_storage_driver default_driver supplied_driver =
      if not (str_eq supplied_driver "")
      then pure supplied_driver
      else if not (str_eq default_driver "aufs")
      then pure default_driver
      else get_filesystem_type "/var/lib" >>= λ fs.
          pure (if text_eq fs (codes "btrfs") then "btrfs" else default_driver)
