-- ===== src/Tests/Qemu.antt =====
-- The driver for QEMU, in a world where it has one machine.
use p2box.Go.Laws.{ok-injective}
use p2box.Base.{
  sym, ℕ, ℤ, Bool, true, false, Text, codes, String, List, [], ◌∷◌, ◌++◌, Option, none, some, ◌<>◌,
  ◌≡◌, ◌≤◌, ◌<◌, ◌⊎◌, refl, arith, text_eq, Lacks-lacks, if◌then◌else◌,
}
use p2box.Go.{message, ok, pure}
use p2box.Qemu.{Driver, new_driver, monitor_path, pidfile_path, qcow2_path}
use p2box.Qemu.Flags.{get_create_flags, set_config_from_flags}
use p2box.Qemu.Configured.{configured_by, set_config_from_flags-configured}
use p2box.Qemu.Monitor.{Connection, Machinery}
use p2box.Qemu.Ports.{parse_port_range, PortMachinery, get_available_tcp_port_from_range}
use p2box.Qemu.Ranges.{get_available_tcp_port_from_range_within}
use p2box.Qemu.Starting.{Runner}
use p2box.Rpc.Flags.{rpc_options}
use p2box.Commands.Create.Values.{get_driver_opts}
use p2box.Tests.Create.{line}

abbrev box : Driver
box = new_driver "box" "/store"

abbrev resolve : String → String → String → String
resolve store name file = "/store/machines/box/box.img"

set_config_from_flags-configured_example :
    set_config_from_flags {W = ℕ} resolve
      (rpc_options (get_driver_opts line get_create_flags))
      box
      0
    ≡ (ok (configured_by line resolve box), 0)
set_config_from_flags-configured_example = set_config_from_flags-configured line resolve box 0

memory_test : (configured_by line resolve box).memory ≡ ℤ.pos 1024
unfolding get_create_flags
memory_test = refl

abbrev last_name : List String → String
last_name [] = ""
last_name (n ∷ []) = n
last_name (n ∷ m ∷ ns) = last_name (m ∷ ns)

-- The world counts the commands that the monitor took. It answers the first two with an empty
-- object, and then with an error.
abbrev monitor : Connection ℕ
monitor = record {
  read = pure (codes "{}");
  write = λ t w. (ok tt, p2box.Base.suc w);
  close = λ w. w;
}

abbrev machinery : Machinery ℕ
machinery = record {
  join = last_name;
  stat = λ name. pure tt;
  read_file = λ name. pure (codes "42");
  remove_file = λ name. pure tt;
  atoi = λ t. some (ℤ.pos 42);
  check_pid = λ pid. pure tt;
  dial_unix = λ name. pure monitor;
  marshal_command = λ command. ok (codes command);
  unmarshal_return = λ t. ok none;
}

-- The number that is drawn is always 0, and the ports below 8001 are taken.
abbrev one_port : PortMachinery ℕ
one_port = record {
  intn = λ n w. (0, w);
  listen = λ port w. (ok port, w);
  pause = λ w. w;
  close_listeners = λ w. w;
}

get_available_tcp_port_from_range_within_example : (8000 ≤ 8000) × (8000 < 8010)
unfolding get_available_tcp_port_from_range p2box.Qemu.Ports.port_rounds
get_available_tcp_port_from_range_within_example =
    get_available_tcp_port_from_range_within one_port (λ n w low. low)
      (λ port p w low e. sym (ok-injective e)) 8000 8010 (omega arith) (omega arith) refl 8000 0
      refl

-- Every run fails.
abbrev runner : Runner ℕ
runner = record {
  run = λ name args w. (([], some (message "no qemu-img")), w);
  has_kvm = λ w. (false, w);
  dial_and_read = λ addr w. (true, w);
}
