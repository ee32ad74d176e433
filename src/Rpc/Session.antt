-- ===== src/Rpc/Session.antt =====
-- libmachine/drivers/rpc/client_driver.go: opening drivers, their heartbeats, and closing them.
pub mod Opening
pub mod Closing
use p2box.Base.{
  ℕ, zero, suc, ◌==◌, Text, ℤ, Bool, true, false, String, List, [], ◌∷◌, ◌++◌, Option, none, some,
  if◌then◌else◌,
}
use p2box.Go.{
  Error, wrap, incompatible_api_version, Result, ok, err, Go, pure, fail, lift, ◌>>=◌, ◌>>◌,
  wrap_with,
}
use p2box.Rpc
use p2box.Rpc.Client.{
  InternalClient, new_internal_client, switch_to_v0, call_method, call_as, decode_number, discard,
  set_config_raw, text_or_empty,
}
use p2box.Rpc.Plugin.{Plugin}

-- The goroutine that receives from `heartbeatDoneCh`: not started, in its `select`, blocked as it
-- sends on the channel itself, or returned with the channel closed.
pub data Heartbeat : Type 0 where
  not_started selecting sending returned : Heartbeat

pub record RpcClientDriver (W : Type 0) : Type 0 where
  pub plugin : Option Plugin
  pub heartbeat : Heartbeat
  pub client : InternalClient W

pub record Factory (W : Type 0) : Type 0 where
  pub opened_drivers : List (RpcClientDriver W)

-- `NewRPCClientDriverFactory`
abbrev pub no_drivers : {W : Type 0} → Factory W
no_drivers = record { opened_drivers = [] }

-- localbinary.NewPlugin, `go p.Serve()`, `p.Address`, rpc.DialHTTP, and the send on `stopCh`,
-- which says whether it returned.
pub record Plugins (W : Type 0) : Type 0 where
  pub new_plugin : String → Go W Plugin
  pub serve : Plugin → Go W Unit
  pub address : Plugin → Go W Text
  pub dial_http : Text → Go W (Rpc.RpcClient W)
  pub close : Plugin → W → Bool × W

-- A call of `close`: it returned, it waits for ever, or it panicked.
pub data Closed : Type 0 where
  done blocked panicked : Closed

-- What opening a driver does, on the driver that the factory lists.
abbrev pub Connecting : Type 0 → Type 0 → Type 0
Connecting W A = Go (RpcClientDriver W × W) A

abbrev pub same_version : ℤ → Bool
same_version (ℤ.pos n) = n == 1
same_version (ℤ.negsuc n) = false

module _ {W : Type 0} where
  abbrev pub on_client : {A : Type 0} → (InternalClient W → Go W A) → Connecting W A
  on_client f (c, w) = let (r, w') = f c.client w in (r, (c, w'))

  abbrev pub change : (RpcClientDriver W → RpcClientDriver W) → Connecting W Unit
  change f (c, w) = (ok tt, (f c, w))

  abbrev pub get_version : InternalClient W → Go W ℤ
  get_version ic = call_as ic decode_number Rpc.get_version_method Rpc.no_args

  -- The first call. Where it fails, it is made once more under the old name of the service.
  abbrev pub retried : Result ℤ → Connecting W ℤ
  retried (ok version) = pure version
  retried (err e) = do
    change (λ c. record c { client = switch_to_v0 c.client })
    on_client get_version

  abbrev pub negotiate : Connecting W ℤ
  negotiate (c, w) = let (r, w') = get_version c.client w in retried r (c, w')

  abbrev pub machine_name_of : InternalClient W → Go W String
  machine_name_of ic w =
      let (name, w') = text_or_empty ic Rpc.get_machine_name_method w in (ok name, w')

  abbrev pub named : Plugin → String → RpcClientDriver W → RpcClientDriver W
  named p name c = record c {
    plugin = some (record p { machine_name = name });
    client = record c.client { machine_name = name };
  }

  abbrev pub configure : Plugin → String → Connecting W Unit
  configure p raw_driver = do
    change (λ c. record c { heartbeat = selecting })
    on_client (λ ic. set_config_raw ic raw_driver)
    name ← on_client machine_name_of
    change (named p name)

  -- From the first call on, with the driver that the factory lists.
  unfoldable pub connect : Plugin → String → Connecting W Unit
  connect p raw_driver = do
    version ← negotiate
    if same_version version then configure p raw_driver else fail (incompatible_api_version version)

  abbrev pub fresh_driver : Rpc.RpcClient W → RpcClientDriver W
  fresh_driver rpc_client = record {
    plugin = none;
    heartbeat = not_started;
    client = new_internal_client rpc_client;
  }

  abbrev pub list_driver : RpcClientDriver W → Factory W → Factory W
  list_driver c f = record f { opened_drivers = f.opened_drivers ++ (c ∷ []) }

  abbrev pub opened_as : Result (Unit {0}) → RpcClientDriver W → Result (RpcClientDriver W)
  opened_as (ok u) c = ok c
  opened_as (err e) c = err e

  -- The heartbeat loop after a time of waiting. Where the call fails, the loop calls `close`, which
  -- sends on the channel that this loop alone receives from.
  abbrev pub beaten : Result Rpc.Reply → RpcClientDriver W → RpcClientDriver W
  beaten (ok reply) c = c
  beaten (err e) c = record c { heartbeat = sending }

  unfoldable pub beat : RpcClientDriver W → W → RpcClientDriver W × W
  beat c w =
      let (r, w') = call_method c.client Rpc.heartbeat_method Rpc.no_args w in (beaten r c, w')

module _ {W : Type 0} where
  abbrev pub next_close : (W → Closed × W) → Closed × W → Closed × W
  next_close rest (done, w) = rest w
  next_close rest (blocked, w) = (blocked, w)
  next_close rest (panicked, w) = (panicked, w)

  -- The list is list_emptied where the loop ends.
  abbrev pub list_emptied : Closed × W → Factory W → Closed × (Factory W × W)
  list_emptied (done, w) f = (done, (record f { opened_drivers = [] }, w))
  list_emptied (blocked, w) f = (blocked, (f, w))
  list_emptied (panicked, w) f = (panicked, (f, w))

module _ {W : Type 0} (plugins : Plugins W) where
  -- The goroutine of `Serve`, whose error is only logged.
  abbrev pub in_background : Go W Unit → Go W Unit
  in_background m w = (ok tt, (m w).1)

  -- The plugin and the connection to it.
  abbrev pub dialled : String → Go W (Plugin × Rpc.RpcClient W)
  dialled driver_name = do
    p ← plugins.new_plugin driver_name
    in_background (plugins.serve p)
    addr ←
        wrap_with (wrap "Error attempting to get plugin server address for RPC") (plugins.address p)
    rpc_client ← plugins.dial_http addr
    pure (p, rpc_client)

  abbrev pub opened :
      String → Result (Plugin × Rpc.RpcClient W) → Go (Factory W × W) (RpcClientDriver W)
  opened raw_driver (err e) (f, w) = (err e, (f, w))
  opened raw_driver (ok (p, rpc_client)) (f, w) =
      let (r, (c, w')) = connect p raw_driver (fresh_driver rpc_client, w) in
      (opened_as r c, (list_driver c f, w'))

  unfoldable pub new_rpc_client_driver : String → String → Go (Factory W × W) (RpcClientDriver W)
  new_rpc_client_driver driver_name raw_driver (f, w) =
      let (r, w') = dialled driver_name w in opened raw_driver r (f, w')

  -- `c.plugin.Close()`, where a driver that was not opened has no plugin.
  abbrev pub closed_if : Bool → Closed
  closed_if true = done
  closed_if false = blocked

  abbrev pub close_plugin : Option Plugin → W → Closed × W
  close_plugin none w = (panicked, w)
  close_plugin (some p) w = let (b, w') = plugins.close p w in (closed_if b, w')

  abbrev pub close_server : RpcClientDriver W → W → Closed × W
  close_server c w =
      let (r, w') = call_method c.client Rpc.close_method Rpc.no_args w in close_plugin c.plugin w'

  -- The send on `heartbeatDoneCh` first, for which the loop has to receive.
  abbrev pub close_at : Heartbeat → RpcClientDriver W → W → Closed × W
  close_at selecting c w = close_server c w
  close_at returned c w = (panicked, w)
  close_at not_started c w = (blocked, w)
  close_at sending c w = (blocked, w)

  unfoldable pub close_driver : RpcClientDriver W → W → Closed × W
  close_driver c w = close_at c.heartbeat c w

  unfoldable pub close_all : List (RpcClientDriver W) → W → Closed × W
  close_all [] w = (done, w)
  close_all (c ∷ cs) w = next_close (close_all cs) (close_driver c w)

  unfoldable pub factory_close : Factory W → W → Closed × (Factory W × W)
  factory_close f w = list_emptied (close_all f.opened_drivers w) f

-- What happens to a factory: a driver is opened, or the heartbeat loop of one of its drivers wakes.
pub data Request : Type 0 where
  opens : String → String → Request
  beats : ℕ → Request

module _ {W : Type 0} where
  -- Only a loop in its `select` wakes.
  abbrev pub wake : Heartbeat → RpcClientDriver W → W → RpcClientDriver W × W
  wake selecting c w = beat c w
  wake not_started c w = (c, w)
  wake sending c w = (c, w)
  wake returned c w = (c, w)

  unfoldable pub beat_at : ℕ → List (RpcClientDriver W) → W → List (RpcClientDriver W) × W
  beat_at n [] w = ([], w)
  beat_at zero (c ∷ cs) w = let (c', w') = wake c.heartbeat c w in (c' ∷ cs, w')
  beat_at (suc n) (c ∷ cs) w = let (cs', w') = beat_at n cs w in (c ∷ cs', w')

module _ {W : Type 0} (plugins : Plugins W) where
  unfoldable pub step : Request → Factory W × W → Factory W × W
  step (opens driver_name raw_driver) s = (new_rpc_client_driver plugins driver_name raw_driver s).1
  step (beats n) (f, w) =
      let (cs, w') = beat_at n f.opened_drivers w in (record f { opened_drivers = cs }, w')

  unfoldable pub run : List Request → Factory W × W → Factory W × W
  run [] s = s
  run (r ∷ rs) s = run rs (step r s)
