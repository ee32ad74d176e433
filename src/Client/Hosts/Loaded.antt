-- ===== src/Client/Hosts/Loaded.antt =====
-- The driver of a host that is loaded.
use p2box.Rpc.Server.{ServerDriver}
use p2box.Rpc.Remote.{Serves, remote, rpc_driver-remote}
use p2box.Go.{Error, Result, ok, err, plugin_binary_not_found}
use p2box.Go.Laws.{>>=-eq-ok, ok-injective}
use p2box.Client.Hosts.{
  load_host, beside_factory, bytes_or_none, new_rpc_client_driver, Error, Factory, HostClient,
  driver_of, driver_for,
}
use p2box.Rpc.Session.{Factory, new_rpc_client_driver, RpcClientDriver}
use p2box.Base.{String, Bool-cases, eq_iff, str_eq, ◌≡◌, ◌≢◌, ◌⊎◌, inl, inr, refl, subst}
use p2box.Drivers.{Driver}
use p2box.Drivers.Serial.{serial_driver}
use p2box.Drivers.ErrDriver.{err_driver}
use p2box.Host.{Host}
use p2box.Persist.Stored.{StoredHost}
use p2box.Rpc.Client.{rpc_driver}

-- Machines of VirtualBox take the shared lock around each call, and no others do.
abbrev pub IsLockedFor : {W : Type 0} → HostClient W → String → Driver W → Driver W → Type 0
IsLockedFor api driver_name inner d =
    ((driver_name ≡ "virtualbox") × (d ≡ serial_driver api.locker inner))
    ⊎ ((driver_name ≢ "virtualbox") × (d ≡ inner))

-- The fields of a host that come from the store.
abbrev pub IsRestored : {W : Type 0} → StoredHost → Host W → Type 0
IsRestored h host =
    (host.name ≡ h.name)
    × (host.driver_name ≡ h.driver_name)
    × (host.config_version ≡ h.config_version)
    × (host.host_options ≡ h.host_options)

-- What a host that is loaded has, from what the plugin of its driver answered: the driver of the
-- server behind the connection, or, where the driver has no binary, one that refuses everything.
abbrev pub DriverFrom :
    {W : Type 0}
    → HostClient W
    → (RpcClientDriver W → Driver W)
    → StoredHost
    → Result (RpcClientDriver W)
    → Driver W
    → Type 0
DriverFrom api inner h (ok c) d = IsLockedFor api h.driver_name (inner c) d
DriverFrom api inner h (err (plugin_binary_not_found name path)) d = d ≡ err_driver h.driver_name
DriverFrom api inner h (err e) d = ⊥

module _ {W : Type 0} (api : HostClient W) where
  driver_for-IsLockedFor :
      (driver_name : String) (d : Driver W)
      → IsLockedFor api driver_name d (driver_for api driver_name d)
  driver_for-IsLockedFor driver_name d = elim (Bool-cases (str_eq driver_name "virtualbox")) [
    | inl e ↦ rw e (inl ((eq_iff driver_name "virtualbox").0 e, refl))
    | inr e ↦ rw e (inr ((λ p. cc (e, (eq_iff driver_name "virtualbox").1 p)), refl))
  ]

  driver_of-ok :
      (h : StoredHost) (r : Result (RpcClientDriver W)) (host : Host W)
      → driver_of api h r ≡ ok host
      → IsRestored h host × DriverFrom api (λ c. rpc_driver c.client) h r host.driver
  driver_of-ok h (ok c) host k =
      subst (λ x. IsRestored h x × DriverFrom api (λ c. rpc_driver c.client) h (ok c) x.driver)
        (ok-injective k)
        ((refl, refl, refl, refl), driver_for-IsLockedFor h.driver_name (rpc_driver c.client))
  driver_of-ok h (err (plugin_binary_not_found name path)) host k =
      subst
        (λ x.
          IsRestored h x
          × DriverFrom api (λ c. rpc_driver c.client) h (err (plugin_binary_not_found name path))
              x.driver)
        (ok-injective k) ((refl, refl, refl, refl), refl)
  driver_of-ok h (err e) host k = cc k

  -- Drivers that are the same may stand for each other.
  DriverFrom-along :
      (inner inner' : RpcClientDriver W → Driver W) (h : StoredHost)
      (r : Result (RpcClientDriver W)) (d : Driver W)
      → ((c : RpcClientDriver W) → r ≡ ok c → inner c ≡ inner' c)
      → DriverFrom api inner h r d
      → DriverFrom api inner' h r d
  DriverFrom-along inner inner' h (ok c) d same from =
      subst (λ x. IsLockedFor api h.driver_name x d) (same c refl) from
  DriverFrom-along inner inner' h (err (plugin_binary_not_found name path)) d same from = from
  DriverFrom-along inner inner' h (err e) d same from = from

  -- The answer of the plugin that a stored host names.
  abbrev pub plugin_answer : String → Factory W × W → StoredHost → Result (RpcClientDriver W)
  plugin_answer name (f, w) h =
      (new_rpc_client_driver api.plugins h.driver_name (bytes_or_none h.raw_driver)
        (f, (api.load_stored name w).1)).0

  -- A host is loaded only if it was stored, and its plugin was reached or has no binary. It has the
  -- name, the driver's name, the version and the options that were stored. Its driver is the one of
  -- the server behind the connection, with the shared lock around each call for VirtualBox and for
  -- no other driver; where there is no binary, it refuses every operation. The condition is that
  -- a connection that is opened for the host is served.
  pub load_host-remote :
      (name : String) (s : Factory W × W) (lost : Error)
      (server_of : RpcClientDriver W → ServerDriver W)
      → ((h : StoredHost) (c : RpcClientDriver W)
          → (api.load_stored name s.1).0 ≡ ok h
          → plugin_answer name s h ≡ ok c
          → Serves lost c.client.rpc_client c.client.rpc_service_name (server_of c))
      → (host : Host W) → (load_host api name s).0 ≡ ok host
      → (h : StoredHost) × ((api.load_stored name s.1).0 ≡ ok h)
        × IsRestored h host
        × DriverFrom api (λ c. remote lost (server_of c)) h (plugin_answer name s h) host.driver
  unfolding load_host
  load_host-remote name (f, w) lost server_of served host k =
      let (h, e, k1) = >>=-eq-ok (beside_factory api (api.load_stored name)) _ (f, w) k in
      let (restored, from) = driver_of-ok h (plugin_answer name (f, w) h) host k1 in
      (
        h,
        e,
        restored,
        DriverFrom-along (λ c. rpc_driver c.client) (λ c. remote lost (server_of c)) h
            (plugin_answer name (f, w) h) host.driver
            (λ c o. rpc_driver-remote lost (server_of c) c.client (served h c e o)) from,
      )
