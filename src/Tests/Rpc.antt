-- ===== src/Tests/Rpc.antt =====
-- The client and the server of a driver, at the driver of the lab.
use p2box.Client.Hosts.{HostClient, host_with, load_host}
use p2box.Client.Hosts.Loaded.{load_host-remote, plugin_answer, IsRestored, DriverFrom}
use p2box.Rpc.Remote.{Serves, through, remote, rpc_driver-remote}
use p2box.Rpc.Session.{
  RpcClientDriver, Plugins, Factory, no_drivers, done, opens, beats, run, factory_close,
  new_rpc_client_driver,
}
use p2box.Persist.Stored.{StoredHost}
use p2box.Go.Laws.{ok-injective}
use p2box.Base.{subst, sym, ap, true, codes, [], ◌∷◌, none, some, ◌≡◌, ◌≢◌, ◌↔◌, refl}
use p2box.Tests.Samples.{box}
use p2box.Go.{Error, os_error, ok, pure, fail}
use p2box.Rpc
use p2box.Rpc.Server.{ServerDriver}
use p2box.Rpc.Client.{InternalClient, new_internal_client, rpc_driver}
use p2box.Rpc.Plugin.{plugin_of, address}
use p2box.Rpc.Plugin.Address.{address_again}
use p2box.Rpc.Session.Opening.{Opened, new_rpc_client_driver-Opened}
use p2box.Rpc.Session.Closing.{AllOpen, run-close_iff, failed_open_never_closes}
use p2box.Tests.Lab.{Lab, idle, lab_driver}

abbrev lost : Error
lost = os_error "unexpected EOF"

abbrev lab_server : ServerDriver Lab
lab_server = record {
  actual_driver = lab_driver;
  marshal = pure "{}";
  unmarshal = λ bytes. pure tt;
  send_close = pure tt;
  send_heartbeat = pure tt;
  stack = "";
}

-- A connection to the server, which knows the service by both names.
abbrev connection : Rpc.RpcClient Lab
connection name method args = through lost (Rpc.Server.serve lab_server method args)

-- A connection that is gone.
abbrev dead : Rpc.RpcClient Lab
dead name method args = fail lost

rpc_driver-remote_example : rpc_driver (new_internal_client connection) ≡ remote lost lab_server
rpc_driver-remote_example =
    rpc_driver-remote lost lab_server (new_internal_client connection) (λ method args w. refl)

abbrev lab_plugins : Rpc.RpcClient Lab → Plugins Lab
lab_plugins c = record {
  new_plugin = λ name. pure (plugin_of name "/usr/bin/podman-machine");
  serve = λ p. pure tt;
  address = λ p. pure (codes "127.0.0.1:4321");
  dial_http = λ addr. pure c;
  close = λ p w. (true, w);
}

new_rpc_client_driver-Opened_example :
    Opened no_drivers
      (new_rpc_client_driver (lab_plugins connection) "none" "{}" (no_drivers, idle)).0
      (new_rpc_client_driver (lab_plugins connection) "none" "{}" (no_drivers, idle)).1.0
new_rpc_client_driver-Opened_example =
    new_rpc_client_driver-Opened (lab_plugins connection) "none" "{}" no_drivers idle

run-close_iff_example :
    (let (f, w) =
        run (lab_plugins connection) (opens "none" "{}" ∷ beats 0 ∷ []) (no_drivers, idle) in
      ((factory_close (lab_plugins connection) f w).0 ≡ done) ↔ AllOpen f.opened_drivers)
run-close_iff_example =
    run-close_iff (lab_plugins connection) (λ p w. refl) (opens "none" "{}" ∷ beats 0 ∷ []) idle

open_closes_test :
    (let (f, w) =
        run (lab_plugins connection) (opens "none" "{}" ∷ beats 0 ∷ []) (no_drivers, idle) in
      (factory_close (lab_plugins connection) f w).0 ≡ done)
unfolding factory_close p2box.Rpc.Session.close_all run p2box.Rpc.Session.step
    p2box.Rpc.Session.beat_at new_rpc_client_driver p2box.Rpc.Session.close_driver
    p2box.Rpc.Session.connect p2box.Rpc.Client.call_method p2box.Rpc.Server.serve
    p2box.Rpc.Session.beat
open_closes_test = refl

failed_open_never_closes_example :
    (factory_close
      (lab_plugins dead)
      (new_rpc_client_driver (lab_plugins dead) "none" "{}" (no_drivers, idle)).1.0
      idle).0
    ≢ done
unfolding new_rpc_client_driver p2box.Rpc.Session.connect p2box.Rpc.Client.call_method
failed_open_never_closes_example =
    failed_open_never_closes (lab_plugins dead) "none" "{}" no_drivers idle lost (refl)
      (λ e. let listed = ap (λ (f : Factory Lab). f.opened_drivers) e in cc)

address_again_example :
    address none
      (record (plugin_of "none" "/p") { addr = codes "a"; addr_ch_closed = true; timeout = 10 })
    ≡ (
      ok (codes "a"),
      record (plugin_of "none" "/p") { addr = codes "a"; addr_ch_closed = true; timeout = 10 },
    )
unfolding address
address_again_example = address_again (some (codes "a")) none (plugin_of "none" "/p") refl (λ e. cc)

abbrev host_client : HostClient Lab
host_client = record {
  certs_dir = "/certs";
  machines_dir = "/machines";
  join = λ names. "/certs";
  load_stored = λ name. pure box;
  locker = record { lock = λ w. w; unlock = λ w. w };
  plugins = lab_plugins connection;
}

-- What the stored host asks of its plugin is served by the server of the tests.
lab_served :
    (h : StoredHost) (c : RpcClientDriver Lab)
    → ok box ≡ ok h
    → plugin_answer host_client "box" (no_drivers, idle) h ≡ ok c
    → Serves lost c.client.rpc_client c.client.rpc_service_name lab_server
unfolding new_rpc_client_driver p2box.Rpc.Session.connect p2box.Rpc.Client.call_method
    p2box.Rpc.Server.serve
lab_served h c s o =
    let at_box =
      subst (λ k. plugin_answer host_client "box" (no_drivers, idle) k ≡ ok c)
        (sym (ok-injective s)) o in
    subst
      (λ (x : RpcClientDriver Lab).
        Serves lost x.client.rpc_client x.client.rpc_service_name lab_server)
      (ok-injective at_box) (λ method args w. refl)

load_host-remote_example :
    (h : StoredHost) × (ok box ≡ ok h)
    × IsRestored h (host_with box (remote lost lab_server))
    × DriverFrom host_client
        (λ c. remote lost lab_server)
        h
        (plugin_answer host_client "box" (no_drivers, idle) h)
        (remote lost lab_server)
unfolding load_host new_rpc_client_driver p2box.Rpc.Session.connect p2box.Rpc.Client.call_method
    p2box.Rpc.Server.serve rpc_driver
load_host-remote_example =
    load_host-remote host_client "box" (no_drivers, idle) lost (λ c. lab_server) lab_served
      (host_with box (remote lost lab_server)) refl
