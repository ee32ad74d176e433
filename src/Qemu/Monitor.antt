-- ===== src/Qemu/Monitor.antt =====
-- drivers/qemu/qemu.go: the monitor of a machine, its state, and stopping and removing it.
pub mod Outcomes
use p2box.Base.{
  ℤ, Bool, true, false, not, String, Text, codes, List, [], ◌∷◌, Option, none, some, has_prefix,
  trim_space, str_eq, ◌<>◌, if◌then◌else◌,
}
use p2box.State.{State, running, paused, stopped, state_eq}
use p2box.Go.{Error, message, Result, ok, err, Go, pure, fail, lift, ◌>>=◌, ◌>>◌}
use p2box.Drivers.{Method, StateAnswer, succeeded}
use p2box.Rpc.Client.{state_or_error}
use p2box.Qemu.{Driver, monitor_path, pidfile_path, get_ip}

-- A connection to the socket of the monitor.
pub record Connection (W : Type 0) : Type 0 where
  pub read : Go W Text
  pub write : Text → Go W Unit
  pub close : W → W

-- The fields of the map "return" of a reply, whose values are texts here.
abbrev pub Return : Type 0
Return = List (String × String)

-- The files, processes and sockets that the driver uses, and encoding/json: a command as it is
-- sent, and the map "return" of a reply, none where the reply has no such field.
pub record Machinery (W : Type 0) : Type 0 where
  pub join : List String → String
  pub stat : String → Go W Unit
  pub read_file : String → Go W Text
  pub remove_file : String → Go W Unit
  pub atoi : Text → Option ℤ
  pub check_pid : ℤ → Go W Unit
  pub dial_unix : String → Go W (Connection W)
  pub marshal_command : String → Result Text
  pub unmarshal_return : Text → Result (Option Return)

abbrev pub map_get : String → Return → String
map_get key [] = ""
map_get key ((k, v) ∷ rest) = let others = map_get key rest in if str_eq k key then v else others

-- json.Unmarshal leaves the map of the first reply, which is empty, where the field is missing.
abbrev pub or_empty : Option Return → Return
or_empty none = []
or_empty (some r) = r

abbrev pub is_empty_return : Return → Bool
is_empty_return [] = true
is_empty_return (x ∷ r) = false

-- What becomes of the reply to the command.
abbrev pub judge : String → Return → Result Return
judge command r =
    if has_prefix (codes command) (codes "query-")
    then ok r
    else if is_empty_return r
    then ok r
    else err (message (command <> " failed"))

module _ {W : Type 0} (m : Machinery W) where
  abbrev pub say : Connection W → String → Go W (Option Return)
  say conn command = do
    json_command ← lift (m.marshal_command command)
    conn.write json_command
    reply ← conn.read
    lift (m.unmarshal_return reply)

  abbrev pub check_capabilities : Option Return → Go W Unit
  check_capabilities r =
      if is_empty_return (or_empty r) then pure tt else fail (message "qmp_capabilities failed")

  -- The greeting is read and not looked at.
  unfoldable pub last_reply : Connection W → String → Go W (Option Return)
  last_reply conn command = do
    greeting ← conn.read
    capabilities ← say conn "qmp_capabilities"
    check_capabilities capabilities
    say conn command

  -- The deferred close.
  abbrev pub then_close : {A : Type 0} → Connection W → Go W A → Go W A
  then_close conn body w = let (r, w') = body w in (r, conn.close w')

  abbrev pub converse : String → Connection W → Go W Return
  converse command conn =
      then_close conn (do r ← last_reply conn command; lift (judge command (or_empty r)))

  unfoldable pub run_qmp_command : Driver → String → Go W Return
  run_qmp_command d command = do conn ← m.dial_unix (monitor_path m.join d); converse command conn

  abbrev pub state_of_status : String → State
  state_of_status status =
      if str_eq status "running"
      then running
      else if str_eq status "paused"
      then paused
      else if str_eq status "shutdown"
      then stopped
      else State.none

  abbrev pub pid_of : Option ℤ → Result ℤ
  pid_of none = err (message "strconv.Atoi: invalid syntax")
  pid_of (some pid) = ok pid

  abbrev pub status_query : Driver → Go W State
  status_query d = do
    ret ← run_qmp_command d "query-status"
    pure (state_of_status (map_get "status" ret))

  -- A process that is gone leaves its file, which is removed here.
  abbrev pub unless_dead : Driver → Result (Unit {0}) → Go W State
  unless_dead d (ok u) w = status_query d w
  unless_dead d (err e) w = (ok stopped, (m.remove_file (pidfile_path m.join d) w).1)

  abbrev pub live_state : Driver → Go W State
  live_state d = do
    p ← m.read_file (pidfile_path m.join d)
    pid ← lift (pid_of (m.atoi (trim_space p)))
    λ w. let (r, w') = m.check_pid pid w in unless_dead d r w'

  abbrev pub unless_no_pidfile : Driver → Result (Unit {0}) → Go W State
  unless_no_pidfile d (ok u) = live_state d
  unless_no_pidfile d (err e) = pure stopped

  -- An error comes with the state Error in all cases.
  unfoldable pub query_state : Driver → Go W State
  query_state d w = let (r, w') = m.stat (pidfile_path m.join d) w in unless_no_pidfile d r w'

  unfoldable pub get_state : Driver → Method W StateAnswer
  get_state d w = let (r, w') = query_state d w in (state_or_error r, w')

  unfoldable pub stop : Driver → Go W Unit
  stop d = do ret ← run_qmp_command d "system_powerdown"; pure tt

  unfoldable pub kill : Driver → Go W Unit
  kill d = do ret ← run_qmp_command d "system_powerdown"; pure tt

  abbrev pub quit : Driver → Go W Unit
  quit d = do ret ← run_qmp_command d "quit"; pure tt

  unfoldable pub remove : Driver → Go W Unit
  remove d = do
    s ← query_state d
    if state_eq s running then kill d else pure tt
    if not (state_eq s stopped) then quit d else pure tt

  -- `start` is the driver's Start.
  unfoldable pub restart : Go W Unit → Driver → Go W Unit
  restart start d = do s ← query_state d; if state_eq s running then stop d else pure tt; start

  abbrev pub tcp_url : String → String
  tcp_url ip = if str_eq ip "" then "" else "tcp://" <> ip

  unfoldable pub get_url : Driver → Method W String
  get_url d w =
      let (r, w') = m.stat (pidfile_path m.join d) w in
      (if succeeded r then tcp_url (get_ip d) else "", w')
