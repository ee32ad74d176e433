-- ===== src/Rpc.antt =====
-- libmachine/drivers/rpc: a driver in another process, which the program calls over net/rpc.
-- This file: the names of the methods, and what a call carries to the server and back.
pub mod Flags
pub mod Server
pub mod Client
pub mod Remote
pub mod Plugin
pub mod Session
pub mod Register
use p2box.Base.{ℤ, String, List}
use p2box.State.{State}
use p2box.Go.{Go}
use p2box.Drivers.{Flag, DriverOptions}

abbrev pub service_name_v0 : String
service_name_v0 = "RpcServerDriver"

abbrev pub service_name_v1 : String
service_name_v1 = "RPCServerDriver"

abbrev pub heartbeat_method : String
heartbeat_method = ".Heartbeat"

abbrev pub get_version_method : String
get_version_method = ".GetVersion"

abbrev pub close_method : String
close_method = ".Close"

abbrev pub get_create_flags_method : String
get_create_flags_method = ".GetCreateFlags"

abbrev pub set_config_raw_method : String
set_config_raw_method = ".SetConfigRaw"

abbrev pub get_config_raw_method : String
get_config_raw_method = ".GetConfigRaw"

abbrev pub driver_name_method : String
driver_name_method = ".DriverName"

abbrev pub set_config_from_flags_method : String
set_config_from_flags_method = ".SetConfigFromFlags"

abbrev pub get_url_method : String
get_url_method = ".GetURL"

abbrev pub get_machine_name_method : String
get_machine_name_method = ".GetMachineName"

abbrev pub get_ip_method : String
get_ip_method = ".GetIP"

abbrev pub get_ssh_hostname_method : String
get_ssh_hostname_method = ".GetSSHHostname"

abbrev pub get_ssh_key_path_method : String
get_ssh_key_path_method = ".GetSSHKeyPath"

abbrev pub get_ssh_port_method : String
get_ssh_port_method = ".GetSSHPort"

abbrev pub get_ssh_username_method : String
get_ssh_username_method = ".GetSSHUsername"

abbrev pub get_state_method : String
get_state_method = ".GetState"

abbrev pub pre_create_check_method : String
pre_create_check_method = ".PreCreateCheck"

abbrev pub create_method : String
create_method = ".Create"

abbrev pub remove_method : String
remove_method = ".Remove"

abbrev pub start_method : String
start_method = ".Start"

abbrev pub stop_method : String
stop_method = ".Stop"

abbrev pub restart_method : String
restart_method = ".Restart"

abbrev pub kill_method : String
kill_method = ".Kill"

abbrev pub api_version : ℤ
api_version = ℤ.pos 1

-- The argument of a call: an empty struct, bytes, or options behind their interface.
pub data Args (W : Type 0) : Type 0 where
  no_args : Args W
  bytes_arg : String → Args W
  options_arg : DriverOptions W → Args W

-- What a method puts behind its reply pointer.
pub data Reply : Type 0 where
  no_reply : Reply
  text_reply bytes_reply : String → Reply
  number_reply : ℤ → Reply
  flags_reply : List Flag → Reply
  state_reply : State → Reply

-- rpc.Client.Call of net/rpc. The one text that it takes, the name of a service and behind it that
-- of a method, stands here as two: net/rpc takes it apart at the dot.
abbrev pub RpcClient : Type 0 → Type 0
RpcClient W = String → String → Args W → Go W Reply
