-- ===== src/Tests/Lab.antt =====
-- A world with one machine and a store of names, and a driver, a store and a client on it.
use p2box.Base.{ℤ, Bool, true, false, String, List, [], ◌∷◌, none, some}
use p2box.State.{State, running, stopped}
use p2box.Go.{message, ok, Go, pure, fail}
use p2box.Drivers.{Driver, System}
use p2box.Host.{Host}
use p2box.Persist.Hosts.{Store}
use p2box.Client.{Client}
use p2box.Tests.Samples.{options}

pub record Lab : Type 0 where
  pub machine : State
  pub stored : List String

abbrev pub idle : Lab
idle = record { machine = stopped; stored = "box" ∷ [] }

abbrev pub empty_lab : Lab
empty_lab = record { machine = State.none; stored = [] }

abbrev pub become : State → Go Lab Unit
become s w = (ok tt, record w { machine = s })

-- The driver is "none", so that a creation ends with the second save.
abbrev pub lab_driver : Driver Lab
lab_driver = record {
  create = become running;
  driver_name = λ w. ("none", w);
  get_create_flags = λ w. ([], w);
  get_ip = pure "10.0.0.2";
  get_machine_name = λ w. ("box", w);
  get_ssh_hostname = pure "10.0.0.2";
  get_ssh_key_path = λ w. ("", w);
  get_ssh_port = pure (ℤ.pos 22);
  get_ssh_username = λ w. ("core", w);
  get_url = pure "tcp://10.0.0.2:2376";
  get_state = λ w. ((w.machine, none), w);
  kill = become stopped;
  pre_create_check = pure tt;
  remove = become State.none;
  restart = become running;
  set_config_from_flags = λ o. pure tt;
  start = become running;
  stop = become stopped;
}

-- A driver that fails every operation that changes the machine.
abbrev pub bad_driver : Driver Lab
bad_driver = record lab_driver {
  create = fail (message "no");
  pre_create_check = fail (message "no");
  remove = fail (message "no");
}

abbrev pub system : System Lab
system = record {
  sleep = λ ms w. w;
  new_client = λ user address port auth. pure (λ command w. (("", none), w));
}

abbrev pub host_of : Driver Lab → Host Lab
host_of d = record {
  config_version = 3;
  driver = d;
  driver_name = "none";
  host_options = some options;
  name = "box";
  raw_driver = "{}";
}

abbrev pub holds : List String → Bool
holds [] = false
holds (n ∷ ns) = true

abbrev pub store_of : Driver Lab → Store Lab (Host Lab)
store_of d = record {
  exists = λ name w. (ok (holds w.stored), w);
  list = λ w. (ok w.stored, w);
  load = λ name. pure (host_of d);
  remove = λ name w. (ok tt, record w { stored = [] });
  save = λ h w. (ok tt, record w { stored = h.name ∷ [] });
}

abbrev pub client_of : Driver Lab → Client Lab
client_of d = record {
  system = system;
  provisioners = [];
  store = store_of d;
  bootstrap_certificates = λ auth. pure tt;
}
