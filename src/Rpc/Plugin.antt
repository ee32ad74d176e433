-- ===== src/Rpc/Plugin.antt =====
-- libmachine/drivers/plugin/localbinary/plugin.go: the process in which a driver runs.
pub mod Address
use p2box.Go.{
  map_err, message, panic, wrap, plugin_binary_not_found, Result, ok, err, Go, ◌>>◌, wrap_with,
}
use p2box.Drivers.BaseDriver.{is_empty}
use p2box.Base.{
  Text, trim_space, ℕ, Bool, true, false, String, List, [], ◌∷◌, Option, none, some, ◌<>◌, str_eq,
  ◌==◌, if◌then◌else◌,
}

abbrev pub core_drivers : List String
core_drivers = "generic" ∷ "none" ∷ "virtualbox" ∷ "qemu" ∷ []

-- The time limit in seconds.
abbrev pub default_timeout : ℕ
default_timeout = 10

-- What the process knows of itself: `CurrentBinaryIsPodmanMachine` and `os.Args[0]`.
pub record Self : Type 0 where
  pub is_podman_machine : Bool
  pub path : String

abbrev pub own_path : Self → String
own_path self = if self.is_podman_machine then self.path else "podman-machine"

-- The loop over the core drivers.
abbrev pub path_among : Self → List String → String → String
path_among self [] driver_name = "podman-machine-driver-" <> driver_name
path_among self (core_driver ∷ rest) driver_name =
    let others = path_among self rest driver_name in
    if str_eq core_driver driver_name then own_path self else others

unfoldable pub driver_path : Self → String → String
driver_path self driver_name = path_among self core_drivers driver_name

-- `addr_ch` is open until an address was addr_received.
pub record Plugin : Type 0 where
  pub driver_name : String
  pub binary_path : String
  pub addr : Text
  pub machine_name : String
  pub addr_ch_closed : Bool
  pub timeout : ℕ

abbrev pub plugin_of : String → String → Plugin
plugin_of driver_name binary_path = record {
  driver_name = driver_name;
  binary_path = binary_path;
  addr = [];
  machine_name = "";
  addr_ch_closed = false;
  timeout = 0;
}

abbrev pub found_at : String → String → Result String → Result Plugin
found_at driver_name path (ok binary_path) = ok (plugin_of driver_name binary_path)
found_at driver_name path (err e) = err (plugin_binary_not_found driver_name path)

-- `look_path` is exec.LookPath.
unfoldable pub new_plugin : {W : Type 0} → Self → (String → Go W String) → String → Go W Plugin
new_plugin self look_path driver_name w =
    let path = driver_path self driver_name in
    let (r, w') = look_path path w in (found_at driver_name path r, w')

abbrev pub with_timeout : Plugin → Plugin
with_timeout p = if p.timeout == 0 then record p { timeout = default_timeout } else p

-- The `select`: an address, or none within the time limit. From a channel that is closed an empty
-- address comes at once.
abbrev pub addr_received : Option Text → Plugin → Result Text × Plugin
addr_received none p = (err (message "Failed to dial the plugin server"), p)
addr_received (some addr) p = (ok addr, record p { addr = addr; addr_ch_closed = true })

abbrev pub received_again : Plugin → Result Text × Plugin
received_again p = (err (panic "close of closed channel"), record p { addr = [] })

-- `arrives` is what the server process sends within the time limit.
unfoldable pub address : Option Text → Plugin → Result Text × Plugin
address arrives p =
    if is_empty p.addr
    then (let p' = with_timeout p in
        if p.addr_ch_closed then received_again p' else addr_received arrives p')
    else (ok p.addr, p)

-- What the operating system does for an executor: the pipes and the process.
pub record Processes (W : Type 0) : Type 0 where
  pub stdout_pipe : String → Go W Unit
  pub stderr_pipe : String → Go W Unit
  pub set_env : String → String → W → W
  pub start : String → Go W Unit
  -- cmd.Wait
  pub wait : String → Go W Unit

module _ {W : Type 0} (os : Processes W) where
  abbrev pub set_plugin_env : String → Go W Unit
  set_plugin_env driver_name w = (
    ok tt,
    os.set_env "MACHINE_PLUGIN_DRIVER_NAME" driver_name (os.set_env "MACHINE_PLUGIN_TOKEN" "42" w),
  )

  unfoldable pub executor_start : Plugin → Go W Unit
  executor_start p = do
    wrap_with (wrap "Error getting cmd stdout pipe") (os.stdout_pipe p.binary_path)
    wrap_with (wrap "Error getting cmd stderr pipe") (os.stderr_pipe p.binary_path)
    set_plugin_env p.driver_name
    wrap_with (wrap "Error starting plugin binary") (os.start p.binary_path)

  unfoldable pub executor_close : Plugin → Go W Unit
  executor_close p = wrap_with (wrap "Error waiting for binary close") (os.wait p.binary_path)

-- What reaches the loop of the server: a line of the process, or the call of `Close`.
pub data Event : Type 0 where
  out_line err_line : String → Event
  stop : Event

-- The levels at which the lines are logged.
pub data Line : Type 0 where
  info debug : String → Line

-- What `execServer` did: the address that it sent, the lines that it logged, in their order, and
-- what it returned, none while it runs.
pub record Served : Type 0 where
  pub sent_addr : Option Text
  pub logged : List Line
  pub outcome : Option (Result (Unit {0}))

abbrev pub log_line : Line → Served → Served
log_line l s = record s { logged = l ∷ s.logged }

abbrev pub ended_with : Option (Result (Unit {0})) → Served
ended_with r = record { sent_addr = none; logged = []; outcome = r }

-- The loop, with what closing the executor answers.
abbrev pub serve_loop : Result (Unit {0}) → List Event → Served
serve_loop closing [] = ended_with none
serve_loop closing (out_line out ∷ events) = log_line (info out) (serve_loop closing events)
serve_loop closing (err_line line ∷ events) = log_line (debug line) (serve_loop closing events)
serve_loop closing (stop ∷ events) =
    ended_with (some (map_err (wrap "Error closing local plugin binary") closing))

-- `first` is the first line of the process, an empty text where there is none.
unfoldable pub exec_server :
    Result (Unit {0}) → Result Text → Result (Unit {0}) → List Event → Served
exec_server (err e) first closing events = ended_with (some (err e))
exec_server (ok u) (err e) closing events =
    ended_with (some (err (wrap "Reading plugin address failed" e)))
exec_server (ok u) (ok addr) closing events = record (serve_loop closing events) {
  sent_addr = some (trim_space addr);
}
