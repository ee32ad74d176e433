-- ===== src/Rpc/Server.antt =====
-- libmachine/drivers/rpc/server_driver.go: the methods that the server of a driver answers.
use p2box.Base.{String, List, [], ◌∷◌, ◌<>◌, str_eq, if◌then◌else◌}
use p2box.Go.{message, panic, Result, ok, err, Go, pure, fail, ◌>>=◌}
use p2box.Drivers.{Driver, call, checked_state}
use p2box.Rpc

-- The actual driver, `json.Marshal` and `json.Unmarshal` on it, the sends on `CloseCh` and
-- `HeartbeatCh`, and the text of `debug.Stack`.
pub record ServerDriver (W : Type 0) : Type 0 where
  pub actual_driver : Driver W
  pub marshal : Go W String
  pub unmarshal : String → Go W Unit
  pub send_close : Go W Unit
  pub send_heartbeat : Go W Unit
  pub stack : String

abbrev pub Handler : Type 0 → Type 0
Handler W = Rpc.Args W → Go W Rpc.Reply

-- The deferred `trapPanic`: a panic becomes the error of the method.
abbrev pub trap_panic : {A : Type 0} → String → Result A → Result A
trap_panic stack (ok a) = ok a
trap_panic stack (err (panic s)) = err (message ("Panic in the driver: " <> s <> "\n" <> stack))
trap_panic stack (err e) = err e

-- An argument of another type than the method's is refused by net/rpc.
abbrev pub wrong_args : {A : Type 0} → Result A
wrong_args = err (message "gob: type mismatch")

module _ {W : Type 0} where
  -- Methods that answer with a text, and methods that answer with nothing.
  abbrev pub text_method : Go W String → Handler W
  text_method m args = do s ← m; pure (Rpc.text_reply s)

  abbrev pub done_method : Go W Unit → Handler W
  done_method m args = do u ← m; pure Rpc.no_reply

  abbrev pub find_method : List (String × Handler W) → String → Handler W
  find_method [] m args = fail (message ("rpc: can't find method " <> m))
  find_method ((name, h) ∷ table) m args =
      let others = find_method table m args in if str_eq name m then h args else others

  module _ (r : ServerDriver W) where
    abbrev pub server_close : Handler W
    server_close = done_method r.send_close

    abbrev pub server_heartbeat : Handler W
    server_heartbeat = done_method r.send_heartbeat

    abbrev pub server_get_version : Handler W
    server_get_version args = pure (Rpc.number_reply Rpc.api_version)

    abbrev pub server_get_config_raw : Handler W
    server_get_config_raw args = do driver_data ← r.marshal; pure (Rpc.bytes_reply driver_data)

    abbrev pub server_set_config_raw : Handler W
    server_set_config_raw (Rpc.bytes_arg bytes) = done_method (r.unmarshal bytes) Rpc.no_args
    server_set_config_raw _ = λ w. (wrong_args, w)

    abbrev pub server_get_create_flags : Handler W
    server_get_create_flags args = do
      flags ← call r.actual_driver.get_create_flags
      pure (Rpc.flags_reply flags)

    abbrev pub trapped_create : Go W Unit
    trapped_create w = let (u, w') = r.actual_driver.create w in (trap_panic r.stack u, w')

    abbrev pub server_create : Handler W
    server_create = done_method trapped_create

    abbrev pub server_get_ssh_port : Handler W
    server_get_ssh_port args = do port ← r.actual_driver.get_ssh_port; pure (Rpc.number_reply port)

    abbrev pub server_get_state : Handler W
    server_get_state args = do s ← checked_state r.actual_driver; pure (Rpc.state_reply s)

    abbrev pub server_set_config_from_flags : Handler W
    server_set_config_from_flags (Rpc.options_arg flags) =
        done_method (r.actual_driver.set_config_from_flags flags) Rpc.no_args
    server_set_config_from_flags _ = λ w. (wrong_args, w)

    -- The exported methods, which net/rpc calls by their names.
    abbrev pub methods : List (String × Handler W)
    methods =
        (Rpc.close_method, server_close)
        ∷ (Rpc.heartbeat_method, server_heartbeat)
        ∷ (Rpc.get_version_method, server_get_version)
        ∷ (Rpc.get_config_raw_method, server_get_config_raw)
        ∷ (Rpc.set_config_raw_method, server_set_config_raw)
        ∷ (Rpc.get_create_flags_method, server_get_create_flags)
        ∷ (Rpc.create_method, server_create)
        ∷ (Rpc.driver_name_method, text_method (call r.actual_driver.driver_name))
        ∷ (Rpc.get_ip_method, text_method r.actual_driver.get_ip)
        ∷ (Rpc.get_machine_name_method, text_method (call r.actual_driver.get_machine_name))
        ∷ (Rpc.get_ssh_hostname_method, text_method r.actual_driver.get_ssh_hostname)
        ∷ (Rpc.get_ssh_key_path_method, text_method (call r.actual_driver.get_ssh_key_path))
        ∷ (Rpc.get_ssh_port_method, server_get_ssh_port)
        ∷ (Rpc.get_ssh_username_method, text_method (call r.actual_driver.get_ssh_username))
        ∷ (Rpc.get_url_method, text_method r.actual_driver.get_url)
        ∷ (Rpc.get_state_method, server_get_state)
        ∷ (Rpc.kill_method, done_method r.actual_driver.kill)
        ∷ (Rpc.pre_create_check_method, done_method r.actual_driver.pre_create_check)
        ∷ (Rpc.remove_method, done_method r.actual_driver.remove)
        ∷ (Rpc.restart_method, done_method r.actual_driver.restart)
        ∷ (Rpc.set_config_from_flags_method, server_set_config_from_flags)
        ∷ (Rpc.start_method, done_method r.actual_driver.start)
        ∷ (Rpc.stop_method, done_method r.actual_driver.stop)
        ∷ []

    unfoldable pub serve : String → Handler W
    serve = find_method methods
