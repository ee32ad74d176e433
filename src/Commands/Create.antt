-- ===== src/Commands/Create.antt =====
-- commands/create.go: the command create, from its arguments to the machine in the store.
pub mod Values
pub mod Lookup
pub mod Finds
pub mod Reads
pub mod Steps
use p2box.Base.{
  ℕ, Bool, true, false, ℤ, Text, codes, String, List, [], ◌∷◌, Option, none, some, str_eq, ◌&&◌,
  ◌||◌, leb, ◌==◌, if◌then◌else◌,
}
use p2box.Go.{
  Error, message, wrap, invalid_hostname, host_already_exists, Result, ok, err, Go, pure, fail,
  lift, ◌>>=◌, ◌>>◌, wrap_with,
}
use p2box.Drivers.{Flag, DriverOptions, call}
use p2box.Provision.{AuthOptions, EngineOptions}
use p2box.Host.{Host, Options}
use p2box.Persist.Hosts.{Store}
use p2box.Rpc.Flags.{RpcFlags, rpc_options}
use p2box.Commands.Create.Values.{CommandLine, get_driver_opts}

-- host.ValidateHostName: a letter or a digit, and then letters, digits, '-' and '.'.
abbrev pub is_between : ℕ → ℕ → ℕ → Bool
is_between lo hi c = leb lo c && leb c hi

abbrev pub is_alphanumeric : ℕ → Bool
is_alphanumeric c = is_between b'a' b'z' c || is_between b'A' b'Z' c || is_between b'0' b'9' c

abbrev pub all_of_host_name : Text → Bool
all_of_host_name [] = true
all_of_host_name (c ∷ s) = (is_alphanumeric c || (c == b'-') || (c == b'.')) && all_of_host_name s

unfoldable pub validate_host_name : Text → Bool
validate_host_name [] = false
validate_host_name (c ∷ s) = is_alphanumeric c && all_of_host_name s

-- mcndirs, over filepath.Join and the base directory.
module _ (join : List String → String) (base_dir : String) where
  abbrev pub get_machine_dir : String
  get_machine_dir = join (base_dir ∷ "machines" ∷ [])

  abbrev pub get_machine_cert_dir : String
  get_machine_cert_dir = join (base_dir ∷ "certs" ∷ [])

  unfoldable pub tls_path : CommandLine → String → String → String
  tls_path c flag default_name =
      let path = c.global_string flag in
      if str_eq path "" then join (get_machine_cert_dir ∷ default_name ∷ []) else path

  abbrev pub create_auth_options : CommandLine → String → AuthOptions
  create_auth_options c name = record {
    cert_dir = get_machine_cert_dir;
    ca_cert_path = tls_path c "tls-ca-cert" "ca.pem";
    ca_private_key_path = tls_path c "tls-ca-key" "ca-key.pem";
    ca_cert_remote_path = "";
    server_cert_path = join (get_machine_dir ∷ name ∷ "server.pem" ∷ []);
    server_key_path = join (get_machine_dir ∷ name ∷ "server-key.pem" ∷ []);
    client_key_path = tls_path c "tls-client-key" "key.pem";
    server_cert_remote_path = "";
    server_key_remote_path = "";
    client_cert_path = tls_path c "tls-client-cert" "cert.pem";
    server_cert_sans = c.string_slice "tls-san";
    store_path = join (get_machine_dir ∷ name ∷ []);
  }

  abbrev pub create_engine_options : CommandLine → EngineOptions
  create_engine_options c = record {
    arbitrary_flags = c.string_slice "engine-opt";
    dns = [];
    graph_dir = "";
    env = c.string_slice "engine-env";
    ipv6 = false;
    insecure_registry = c.string_slice "engine-insecure-registry";
    labels = c.string_slice "engine-label";
    log_level = "";
    storage_driver = c.string "engine-storage-driver";
    selinux_enabled = false;
    tls_verify = true;
    registry_mirror = c.string_slice "engine-registry-mirror";
    install_url = c.string "engine-install-url";
  }

  abbrev pub create_options : CommandLine → String → Options
  create_options c name = record {
    driver = "";
    memory = ℤ.pos 0;
    disk = ℤ.pos 0;
    engine_options = some (create_engine_options c);
    auth_options = some (create_auth_options c name);
  }

-- The parts of `libmachine.API` that the command calls, and `json.Marshal` of a bare driver with a
-- name and the path of the store.
pub record CreateApi (W : Type 0) : Type 0 where
  pub new_host : String → String → Go W (Host W)
  pub store : Store W (Host W)
  pub create_host : Host W → Go W Unit
  pub marshal_bare : String → String → Result String
  pub join : List String → String
  pub base_dir : String

abbrev pub no_machine_name : Error
no_machine_name = message "Error: No machine name specified"

-- The checks of the arguments, in their order.
abbrev pub checked_name : List String → Result String
checked_name [] = err no_machine_name
checked_name (name ∷ extra ∷ rest) = err (message "Invalid command line. Found extra arguments")
checked_name (name ∷ []) =
    if str_eq name ""
    then err no_machine_name
    else if validate_host_name (codes name)
    then ok name
    else err (wrap "Error creating machine" invalid_hostname)

module _ {W : Type 0} (api : CreateApi W) (c : CommandLine) where
  abbrev pub with_options : String → Host W → Host W
  with_options name h = record h {
    host_options = some (create_options api.join api.base_dir c name);
  }

  abbrev pub new_machine : String → Go W (Host W)
  new_machine name = do
    raw_driver ←
        wrap_with (wrap "Error attempting to marshal bare driver data")
          (lift (api.marshal_bare name (c.global_string "storage-path")))
    h ← wrap_with (wrap "Error getting new host") (api.new_host (c.string "driver") raw_driver)
    pure (with_options name h)

  abbrev pub set_flags : Host W → Go W Unit
  set_flags h = do
    mcn_flags ← call h.driver.get_create_flags
    wrap_with (wrap "Error setting machine configuration from flags provided")
        (h.driver.set_config_from_flags (rpc_options (get_driver_opts c mcn_flags)))

  -- The part after the check that the machine is new.
  abbrev pub create_new : Host W → Go W Unit
  create_new h = do
    set_flags h
    wrap_with (wrap "Error performing create") (api.create_host h)
    wrap_with (wrap "Error attempting to save store") (api.store.save h)

  abbrev pub create_unless : Host W → Bool → Go W Unit
  create_unless h exists = if exists then fail (host_already_exists h.name) else create_new h

  abbrev pub create_named : String → Go W Unit
  create_named name = do
    h ← new_machine name
    exists ← wrap_with (wrap "Error checking if host exists") (api.store.exists h.name)
    create_unless h exists

  unfoldable pub cmd_create_inner : Go W Unit
  cmd_create_inner = do name ← lift (checked_name c.args); create_named name
