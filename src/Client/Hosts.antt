-- ===== src/Client/Hosts.antt =====
-- libmachine/libmachine.go: hosts with a driver in another process.
pub mod Loaded
use p2box.Base.{
  ℤ, Bool, true, false, String, List, [], ◌∷◌, Option, none, some, str_eq, if◌then◌else◌,
}
use p2box.Go.{Error, plugin_binary_not_found, Result, ok, err, Go, pure, ◌>>=◌}
use p2box.Drivers.{Driver}
use p2box.Drivers.Serial.{Locker, serial_driver}
use p2box.Drivers.ErrDriver.{err_driver}
use p2box.Provision.{AuthOptions, EngineOptions}
use p2box.Host.{Host, Options}
use p2box.Persist.Stored.{StoredHost, current_version}
use p2box.Rpc.Client.{InternalClient, rpc_driver}
use p2box.Rpc.Session.{RpcClientDriver, Factory, Plugins, new_rpc_client_driver}

-- What `Client` holds beside the state of its factory: the directories, filepath.Join, the load of
-- the file store, and the lock of the serial drivers.
pub record HostClient (W : Type 0) : Type 0 where
  pub certs_dir : String
  pub machines_dir : String
  pub join : List String → String
  pub load_stored : String → Go W StoredHost
  pub locker : Locker W
  pub plugins : Plugins W

-- A slice that is nil has no bytes.
abbrev pub bytes_or_none : Option String → String
bytes_or_none none = ""
bytes_or_none (some bytes) = bytes

-- The stored host with its driver.
abbrev pub host_with : {W : Type 0} → StoredHost → Driver W → Host W
host_with h d = record {
  config_version = h.config_version;
  driver = d;
  driver_name = h.driver_name;
  host_options = h.host_options;
  name = h.name;
  raw_driver = bytes_or_none h.raw_driver;
}

module _ {W : Type 0} (api : HostClient W) where
  -- A call that leaves the factory as it is.
  abbrev pub beside_factory : {A : Type 0} → Go W A → Go (Factory W × W) A
  beside_factory m (f, w) = let (r, w') = m w in (r, (f, w'))

  abbrev pub driver_for : String → Driver W → Driver W
  driver_for driver_name d =
      if str_eq driver_name "virtualbox" then serial_driver api.locker d else d

  -- A driver that is not found is no error here.
  abbrev pub driver_of : StoredHost → Result (RpcClientDriver W) → Result (Host W)
  driver_of h (ok c) = ok (host_with h (driver_for h.driver_name (rpc_driver c.client)))
  driver_of h (err (plugin_binary_not_found name path)) =
      ok (host_with h (err_driver h.driver_name))
  driver_of h (err e) = err e

  abbrev pub open_driver : StoredHost → Go (Factory W × W) (Host W)
  open_driver h s =
      let (r, s') =
        new_rpc_client_driver api.plugins h.driver_name (bytes_or_none h.raw_driver) s in
      (driver_of h r, s')

  unfoldable pub load_host : String → Go (Factory W × W) (Host W)
  load_host name = do h ← beside_factory (api.load_stored name); open_driver h

  abbrev pub new_auth_options : AuthOptions
  new_auth_options = record {
    cert_dir = api.certs_dir;
    ca_cert_path = api.join (api.certs_dir ∷ "ca.pem" ∷ []);
    ca_private_key_path = api.join (api.certs_dir ∷ "ca-key.pem" ∷ []);
    ca_cert_remote_path = "";
    server_cert_path = api.join (api.machines_dir ∷ "server.pem" ∷ []);
    server_key_path = api.join (api.machines_dir ∷ "server-key.pem" ∷ []);
    client_key_path = api.join (api.certs_dir ∷ "key.pem" ∷ []);
    server_cert_remote_path = "";
    server_key_remote_path = "";
    client_cert_path = api.join (api.certs_dir ∷ "cert.pem" ∷ []);
    server_cert_sans = [];
    store_path = "";
  }

  abbrev pub new_engine_options : EngineOptions
  new_engine_options = record {
    arbitrary_flags = [];
    dns = [];
    graph_dir = "";
    env = [];
    ipv6 = false;
    insecure_registry = [];
    labels = [];
    log_level = "";
    storage_driver = "overlay2";
    selinux_enabled = false;
    tls_verify = true;
    registry_mirror = [];
    install_url = "https://podman.io";
  }

  abbrev pub new_options : Options
  new_options = record {
    driver = "";
    memory = ℤ.pos 0;
    disk = ℤ.pos 0;
    engine_options = some new_engine_options;
    auth_options = some new_auth_options;
  }

  abbrev pub named_host : Driver W → Go W (Host W)
  named_host d w =
      let (name, w') = d.get_machine_name w in
      let (driver_name, w'') = d.driver_name w' in
      (
        ok (record {
          config_version = current_version;
          driver = d;
          driver_name = driver_name;
          host_options = some new_options;
          name = name;
          raw_driver = "";
        }),
        w'',
      )

  unfoldable pub new_host : String → String → Go (Factory W × W) (Host W)
  new_host driver_name raw_driver = do
    c ← new_rpc_client_driver api.plugins driver_name raw_driver
    beside_factory (named_host (rpc_driver c.client))
