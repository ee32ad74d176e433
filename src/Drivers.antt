-- ===== src/Drivers.antt =====
-- libmachine/drivers/drivers.go and utils.go: the interface of a driver, and the helpers over it.
-- libmachine/mcnflag/flag.go: the flags that a driver registers.
pub mod Serial
pub mod Check
pub mod BaseDriver
pub mod ErrDriver
use p2box.Base.{
  ℤ, Bool, true, false, String, List, [], ◌∷◌, Option, none, some, str_eq, if◌then◌else◌,
}
use p2box.State.{State, running, state_eq}
use p2box.Go.{
  Error, host_is_not_running, ssh_command, wrap, Result, ok, err, Go, pure, fail, ◌>>=◌, wrap_with,
}
use p2box.Wait.{Sleep, WaitTest, wait_for}

pub data Flag : Type 0 where
  -- name, usage, environment variable, and value where the flag has one
  string_flag : String → String → String → String → Flag
  string_slice_flag : String → String → String → List String → Flag
  int_flag : String → String → String → ℤ → Flag
  bool_flag : String → String → String → Flag

-- `Flag.String`
abbrev pub flag_name : Flag → String
flag_name (string_flag name _ _ _) = name
flag_name (string_slice_flag name _ _ _) = name
flag_name (int_flag name _ _ _) = name
flag_name (bool_flag name _ _) = name

-- A method that returns a value and no error.
abbrev pub Method : Type 0 → Type 0 → Type 0
Method W A = W → A × W

pub record DriverOptions (W : Type 0) : Type 0 where
  pub string : String → Method W String
  pub string_slice : String → Method W (List String)
  pub int : String → Method W ℤ
  pub bool : String → Method W Bool

abbrev pub call : {W A : Type 0} → Method W A → Go W A
call m w = let (a, w') = m w in (ok a, w')

-- `GetState` returns a state beside its error, and callers read it.
abbrev pub StateAnswer : Type 0
StateAnswer = State × Option Error

pub record Driver (W : Type 0) : Type 0 where
  pub create : Go W Unit
  pub driver_name : Method W String
  pub get_create_flags : Method W (List Flag)
  pub get_ip : Go W String
  pub get_machine_name : Method W String
  pub get_ssh_hostname : Go W String
  pub get_ssh_key_path : Method W String
  pub get_ssh_port : Go W ℤ
  pub get_ssh_username : Method W String
  pub get_url : Go W String
  pub get_state : Method W StateAnswer
  pub kill : Go W Unit
  pub pre_create_check : Go W Unit
  pub remove : Go W Unit
  pub restart : Go W Unit
  pub set_config_from_flags : DriverOptions W → Go W Unit
  pub start : Go W Unit
  pub stop : Go W Unit

-- The error of a `GetState` call, for callers that return it.
abbrev pub checked_answer : StateAnswer → Result State
checked_answer (s, none) = ok s
checked_answer (s, some e) = err e

abbrev pub checked_state : {W : Type 0} → Driver W → Go W State
checked_state d w = let (a, w') = d.get_state w in (checked_answer a, w')

-- A failed query is logged, and its state is compared all the same.
unfoldable pub machine_in_state : {W : Type 0} → Driver W → State → WaitTest W
machine_in_state d desired_state w =
    let ((current_state, e), w') = d.get_state w in (state_eq current_state desired_state, w')

unfoldable pub must_be_running : {W : Type 0} → Driver W → Go W Unit
must_be_running d = do
  s ← checked_state d
  if state_eq s running then pure tt else fail host_is_not_running

-- ssh.Auth
pub record Auth : Type 0 where
  pub passwords : List String
  pub keys : List String

-- What the callers here use of `ssh.Client`: `Output` returns text beside its error.
abbrev pub SshClient : Type 0 → Type 0
SshClient W = String → Method W (String × Option Error)

-- The rest of the program that the helpers reach: the clock, and `ssh.NewClient`.
pub record System (W : Type 0) : Type 0 where
  pub sleep : Sleep W
  pub new_client : String → String → ℤ → Auth → Go W (SshClient W)

abbrev pub succeeded : {A : Type 0} → Result A → Bool
succeeded (ok _) = true
succeeded (err _) = false

-- The key path is asked for twice where it is set.
abbrev pub auth_of_key_path : {W : Type 0} → Driver W → Go W Auth
auth_of_key_path d = do
  key_path ← call d.get_ssh_key_path
  if str_eq key_path ""
      then pure (record { passwords = []; keys = [] })
      else do key ← call d.get_ssh_key_path; pure (record { passwords = []; keys = key ∷ [] })

module _ {W : Type 0} (sys : System W) (d : Driver W) where
  unfoldable pub get_ssh_client_from_driver : Go W (SshClient W)
  get_ssh_client_from_driver = do
    address ← d.get_ssh_hostname
    port ← d.get_ssh_port
    auth ← auth_of_key_path d
    username ← call d.get_ssh_username
    sys.new_client username address port auth

  unfoldable pub run_ssh_command_from_driver : String → Go W String
  run_ssh_command_from_driver command = do
    client ← get_ssh_client_from_driver
    answer ← call (client command)
    elim answer.1 [ none ↦ pure answer.0 | some error ↦ fail (ssh_command command error answer.0) ]

  unfoldable pub ssh_available : WaitTest W
  ssh_available w = let (r, w') = run_ssh_command_from_driver "exit 0" w in (succeeded r, w')

  unfoldable pub wait_for_ssh : Go W Unit
  wait_for_ssh =
      wrap_with (wrap "Too many retries waiting for SSH to be available.  Last error")
        (wait_for sys.sleep ssh_available)
