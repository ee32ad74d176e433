-- ===== src/Rpc/Client.antt =====
-- libmachine/drivers/rpc/client_driver.go: the driver whose methods are calls to the server.
use p2box.Base.{ℤ, String, List, [], none, some}
use p2box.State.{State}
use p2box.Go.{message, Result, ok, err, Go, lift, ◌>>=◌}
use p2box.Drivers.{Flag, DriverOptions, Driver, Method, StateAnswer}
use p2box.Rpc

pub record InternalClient (W : Type 0) : Type 0 where
  pub machine_name : String
  pub rpc_client : Rpc.RpcClient W
  pub rpc_service_name : String

abbrev pub new_internal_client : {W : Type 0} → Rpc.RpcClient W → InternalClient W
new_internal_client c = record {
  machine_name = "";
  rpc_client = c;
  rpc_service_name = Rpc.service_name_v1;
}

abbrev pub switch_to_v0 : {W : Type 0} → InternalClient W → InternalClient W
switch_to_v0 ic = record ic { rpc_service_name = Rpc.service_name_v0 }

-- A reply is decoded into a variable of the caller's type.
abbrev pub decode_text : Rpc.Reply → Result String
decode_text (Rpc.text_reply s) = ok s
decode_text _ = err (message "gob: type mismatch")

abbrev pub decode_bytes : Rpc.Reply → Result String
decode_bytes (Rpc.bytes_reply s) = ok s
decode_bytes _ = err (message "gob: type mismatch")

abbrev pub decode_number : Rpc.Reply → Result ℤ
decode_number (Rpc.number_reply n) = ok n
decode_number _ = err (message "gob: type mismatch")

abbrev pub decode_flags : Rpc.Reply → Result (List Flag)
decode_flags (Rpc.flags_reply flags) = ok flags
decode_flags _ = err (message "gob: type mismatch")

abbrev pub decode_state : Rpc.Reply → Result State
decode_state (Rpc.state_reply s) = ok s
decode_state _ = err (message "gob: type mismatch")

-- A `nil` reply: the answer of the server is thrown away.
abbrev pub discard : Rpc.Reply → Result (Unit {0})
discard _ = ok tt

-- The error of a call is logged, and the variable keeps its zero value.
abbrev pub value_or : {A : Type 0} → A → Result A → A
value_or z (ok a) = a
value_or z (err e) = z

abbrev pub state_or_error : Result State → StateAnswer
state_or_error (ok s) = (s, none)
state_or_error (err e) = (State.error, some e)

module _ {W : Type 0} (ic : InternalClient W) where
  unfoldable pub call_method : String → Rpc.Args W → Go W Rpc.Reply
  call_method service_method args = ic.rpc_client ic.rpc_service_name service_method args

  abbrev pub call_as : {A : Type 0} → (Rpc.Reply → Result A) → String → Rpc.Args W → Go W A
  call_as decode method args = do reply ← call_method method args; lift (decode reply)

  abbrev pub rpc_string_call : String → Go W String
  rpc_string_call method = call_as decode_text method Rpc.no_args

  abbrev pub text_or_empty : String → Method W String
  text_or_empty method w = let (r, w') = rpc_string_call method w in (value_or "" r, w')

  abbrev pub rpc_get_create_flags : Method W (List Flag)
  rpc_get_create_flags w =
      let (r, w') = call_as decode_flags Rpc.get_create_flags_method Rpc.no_args w in
      (value_or [] r, w')

  abbrev pub set_config_raw : String → Go W Unit
  set_config_raw bytes = call_as discard Rpc.set_config_raw_method (Rpc.bytes_arg bytes)

  abbrev pub get_config_raw : Go W String
  get_config_raw = call_as decode_bytes Rpc.get_config_raw_method Rpc.no_args

  abbrev pub rpc_set_config_from_flags : DriverOptions W → Go W Unit
  rpc_set_config_from_flags flags =
      call_as discard Rpc.set_config_from_flags_method (Rpc.options_arg flags)

  abbrev pub rpc_get_state : Method W StateAnswer
  rpc_get_state w =
      let (r, w') = call_as decode_state Rpc.get_state_method Rpc.no_args w in
      (state_or_error r, w')

  abbrev pub order : String → Go W Unit
  order method = call_as discard method Rpc.no_args

  unfoldable pub rpc_driver : Driver W
  rpc_driver = record {
    create = order Rpc.create_method;
    driver_name = text_or_empty Rpc.driver_name_method;
    get_create_flags = rpc_get_create_flags;
    get_ip = rpc_string_call Rpc.get_ip_method;
    get_machine_name = text_or_empty Rpc.get_machine_name_method;
    get_ssh_hostname = rpc_string_call Rpc.get_ssh_hostname_method;
    get_ssh_key_path = text_or_empty Rpc.get_ssh_key_path_method;
    get_ssh_port = call_as decode_number Rpc.get_ssh_port_method Rpc.no_args;
    get_ssh_username = text_or_empty Rpc.get_ssh_username_method;
    get_url = rpc_string_call Rpc.get_url_method;
    get_state = rpc_get_state;
    kill = order Rpc.kill_method;
    pre_create_check = order Rpc.pre_create_check_method;
    remove = order Rpc.remove_method;
    restart = order Rpc.restart_method;
    set_config_from_flags = rpc_set_config_from_flags;
    start = order Rpc.start_method;
    stop = order Rpc.stop_method;
  }
