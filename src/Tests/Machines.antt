-- ===== src/Tests/Machines.antt =====
-- A driver behind the shared lock, and VirtualBox machines.
use p2box.State.{stopped}
use p2box.Go.{ok, pure}
use p2box.Base.{
  Option, ℕ, ℤ, suc, ◌≡◌, ◌<◌, refl, false, codes, ltb, if◌then◌else◌, [], none, some, arith, Text,
  text_eq,
}
use p2box.Wait.{Sleep}
use p2box.Drivers.{Driver, Method}
use p2box.Drivers.Serial.{Call, Mutex, LeavesHeld}
use p2box.VirtualBox.Vbm.{vbox_cmd_manager, Run, RunCmd, answer_of, vbm_out_err}
use p2box.VirtualBox.Machine.{Machine, get_state, stop, state_or_fail}
use p2box.VirtualBox.Stopping.{asked_at, stop_ends}
use p2box.VirtualBox.Dhcp.{Ip, IpNet, get_dhcp_address_range, get_dhcp_address_range_misses}

-- The inner world counts the starts.
abbrev counting : Driver (Mutex ℕ)
counting = record {
  create = pure tt;
  driver_name = λ m. ("none", m);
  get_create_flags = λ m. ([], m);
  get_ip = pure "10.0.0.2";
  get_machine_name = λ m. ("box", m);
  get_ssh_hostname = pure "10.0.0.2";
  get_ssh_key_path = λ m. ("", m);
  get_ssh_port = pure (ℤ.pos 22);
  get_ssh_username = λ m. ("core", m);
  get_url = pure "tcp://10.0.0.2:2376";
  get_state = λ m. ((stopped, none), m);
  kill = pure tt;
  pre_create_check = pure tt;
  remove = pure tt;
  restart = pure tt;
  set_config_from_flags = λ o. pure tt;
  start = λ m. (ok tt, record m { inner = suc m.inner });
  stop = pure tt;
}

counting-LeavesHeld : LeavesHeld counting
counting-LeavesHeld Call.create m h = (h, refl)
counting-LeavesHeld Call.driver_name m h = (h, refl)
counting-LeavesHeld Call.get_create_flags m h = (h, refl)
counting-LeavesHeld Call.get_ip m h = (h, refl)
counting-LeavesHeld Call.get_machine_name m h = (h, refl)
counting-LeavesHeld Call.get_ssh_hostname m h = (h, refl)
counting-LeavesHeld Call.get_ssh_key_path m h = (h, refl)
counting-LeavesHeld Call.get_ssh_port m h = (h, refl)
counting-LeavesHeld Call.get_ssh_username m h = (h, refl)
counting-LeavesHeld Call.get_url m h = (h, refl)
counting-LeavesHeld Call.get_state m h = (h, refl)
counting-LeavesHeld Call.kill m h = (h, refl)
counting-LeavesHeld Call.pre_create_check m h = (h, refl)
counting-LeavesHeld Call.remove m h = (h, refl)
counting-LeavesHeld Call.restart m h = (h, refl)
counting-LeavesHeld Call.start m h = (h, refl)
counting-LeavesHeld Call.stop m h = (h, refl)
counting-LeavesHeld (Call.set_config_from_flags opts) m h = (h, refl)

abbrev free_lock : Mutex ℕ
free_lock = record { held = false; blocked = 0; inner = 0 }

-- The clock counts seconds or the waits between two runs.
abbrev tick : Sleep ℕ
tick ms now = suc now

-- VirtualBox is ready from the second wait on, and the machine runs until the third.
abbrev run_cmd : RunCmd ℕ
run_cmd args now = (
  record {
    stdout =
        codes (if ltb now 3 then "name=\"box\"\nVMState=\"running\"" else "VMState=\"poweroff\"");
    stderr = [];
    error = none;
  },
  now,
)

abbrev slow_cmd : RunCmd ℕ
slow_cmd args now = (
  record {
    stdout = [];
    stderr = codes (if ltb now 2 then "error: The object is not ready" else "");
    error = none;
  },
  now,
)

abbrev box : Machine ℕ
box = record {
  name = codes "box";
  set_ip_address = λ ip now. now;
  sleep = tick;
  vbox = vbox_cmd_manager tick run_cmd;
}

stop_ends_example : stop box 10 0 ≡ some (ok tt, (get_state box (asked_at box 3 0)).1)
unfolding p2box.VirtualBox.Machine.press_button get_state vbm_out_err
    p2box.VirtualBox.Vbm.vbm_out_err_retry p2box.VirtualBox.Vbm.vbm
stop_ends_example =
    stop_ends box 10 3 stopped 0 refl (omega arith) (refl, (refl, (refl, tt))) refl refl

abbrev server : Ip
server = record { a = 192; b = 168; c = 99; d = 5 }

abbrev half : ℕ → IpNet
half first = record { ip = record server { d = first }; ones = 25 }

get_dhcp_address_range_misses_example :
    let (lower, upper) = get_dhcp_address_range server (half 128) in upper.d < 128
get_dhcp_address_range_misses_example =
    get_dhcp_address_range_misses server (half 128) (omega arith) (omega arith) (omega arith)

abbrev six : ℕ → Method ℕ ℕ
six n now = (6, now)

abbrev found : Ip
found = record server { d = 7 }

-- `strconv.Atoi` on the two numbers of the version 4.3.
abbrev atoi : Text → Option ℤ
atoi s =
    if text_eq s (codes "4")
    then some (ℤ.pos 4)
    else if text_eq s (codes "3")
    then some (ℤ.pos 3)
    else none

abbrev major : ℕ
major = 4
