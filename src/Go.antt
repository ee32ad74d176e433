-- ===== src/Go.antt =====
-- Go's error values, and functions that return an `error` beside their result.
-- libmachine/mcnerror/errors.go and the `errors.New` and `fmt.Errorf` values of the packages.
pub mod Laws
use p2box.Base.{ℤ, ℕ, String}
use p2box.State.{State}

pub data Error : Type 0 where
  -- errors.New(text), and fmt.Errorf without an error among its arguments
  message : String → Error
  -- fmt.Errorf("text: %s", err)
  wrap : String → Error → Error
  -- "Maximum number of retries (%d) exceeded"
  retries_exceeded : ℕ → Error
  -- mcnerror
  host_does_not_exist : String → Error
  host_already_exists : String → Error
  during_pre_create : Error → Error
  host_already_in_state : String → State → Error
  invalid_hostname : Error
  -- drivers.ErrHostIsNotRunning
  host_is_not_running : Error
  -- virtualbox.ErrMachineNotExist, virtualbox.ErrVBMNotFound, virtualbox.ErrMustEnableVTX
  machine_not_exist : Error
  vbm_not_found : Error
  must_enable_vtx : Error
  -- command, error and output of a failed ssh command
  ssh_command : String → Error → String → Error
  -- localbinary.ErrPluginBinaryNotFound, with the driver's name and the path that was looked for
  plugin_binary_not_found : String → String → Error
  -- errdriver.NotLoadable
  not_loadable : String → Error
  -- rpc.ServerError, the text of an error of the server
  server_error : Error → Error
  -- "Driver binary uses an incompatible API version (%d)"
  incompatible_api_version : ℤ → Error
  -- provision.NewErrDaemonAvailable
  daemon_available : Error → Error
  -- a run-time panic, which ends the command as an error does
  panic : String → Error
  -- what a failed operation of the operating system reports
  os_error : String → Error
  not_exist : Error

pub data Result {ℓ} (A : Type ℓ) : Type ℓ where
  ok : A → Result A
  err : Error → Result A

-- A function with effects on a world `W`. What was done before an error stays done.
abbrev pub Go : Type 0 → Type 0 → Type 0
Go W A = W → Result A × W

module _ {W A : Type 0} where
  abbrev pub pure : A → Go W A
  pure a w = (ok a, w)

  abbrev pub fail : Error → Go W A
  fail e w = (err e, w)

  abbrev pub lift : Result A → Go W A
  lift r w = (r, w)

module _ {W A B : Type 0} where
  abbrev pub continue : (A → Go W B) → Result A → Go W B
  continue f (ok a) w = f a w
  continue f (err e) w = (err e, w)

  -- if err := m(); err != nil { return err }
  infixl 5 ◌>>=◌ ◌>>◌
  abbrev pub ◌>>=◌ : Go W A → (A → Go W B) → Go W B
  ◌>>=◌ m f w = let (r, w') = m w in continue f r w'

  abbrev pub ◌>>◌ : Go W A → Go W B → Go W B
  m >> n = m >>= λ _. n

-- A panic is no error value: no caller wraps it.
abbrev pub map_err : {A : Type 0} → (Error → Error) → Result A → Result A
map_err f (ok a) = ok a
map_err f (err (panic s)) = err (panic s)
map_err f (err e) = err (f e)

module _ {W A : Type 0} where
  -- if err := m(); err != nil { return f(err) }
  abbrev pub wrap_with : (Error → Error) → Go W A → Go W A
  wrap_with f m w = let (r, w') = m w in (map_err f r, w')
