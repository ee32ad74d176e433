-- ===== src/Drivers/ErrDriver.antt =====
-- drivers/errdriver/error.go: the driver of a host whose driver was not found.
use p2box.Base.{String, [], some}
use p2box.State.{State}
use p2box.Go.{not_loadable, Go, fail}
use p2box.Drivers.{Driver}

-- The error of every method that has one. `GetIP` gives a text beside it, which is not kept here.
abbrev pub refused : {W A : Type 0} → String → Go W A
refused name = fail (not_loadable name)

unfoldable pub err_driver : {W : Type 0} → String → Driver W
err_driver name = record {
  create = refused name;
  driver_name = λ w. ("not-found", w);
  get_create_flags = λ w. ([], w);
  get_ip = refused name;
  get_machine_name = λ w. (name, w);
  get_ssh_hostname = refused name;
  get_ssh_key_path = λ w. ("", w);
  get_ssh_port = refused name;
  get_ssh_username = λ w. ("", w);
  get_url = refused name;
  get_state = λ w. ((State.error, some (not_loadable name)), w);
  kill = refused name;
  pre_create_check = refused name;
  remove = refused name;
  restart = refused name;
  set_config_from_flags = λ flags. refused name;
  start = refused name;
  stop = refused name;
}
