-- ===== src/VirtualBox/Vbm.antt =====
-- drivers/virtualbox/vbm.go: calls of VBoxManage.
use p2box.Base.{
  ℕ, zero, suc, String, Text, codes, contains, List, [], ◌∷◌, Option, none, some, if◌then◌else◌,
}
use p2box.Go.{Error, message, os_error, vbm_not_found, Result, ok, err, Go}
use p2box.Drivers.{Method}
use p2box.Wait.{Sleep}

-- What running a command ends with, where it fails: `exec.ErrNotFound`, an error whose text begins
-- with "exit status ", or any other error.
pub data CmdError : Type 0 where
  not_found : CmdError
  exit_status : String → CmdError
  other : String → CmdError

-- The output of a run of VBoxManage, and its error.
pub record Run : Type 0 where
  pub stdout : Text
  pub stderr : Text
  pub error : Option CmdError

-- `runCmd`: running VBoxManage with arguments
abbrev pub RunCmd : Type 0 → Type 0
RunCmd W = List Text → Method W Run

-- The texts of the two outputs, and the error.
abbrev pub VbmAnswer : Type 0
VbmAnswer = Text × Text × Option Error

abbrev pub object_not_ready : Text
object_not_ready = codes "error: The object is not ready"

abbrev pub retry_count : ℕ
retry_count = 5

-- The text of the error is the arguments and the error output, which are left out.
abbrev pub command_failed : Error
command_failed = message "VBoxManage failed"

-- VBoxManage may report a fatal error without setting the return code.
abbrev pub fatal : Text → Option Error → Option Error
fatal stderr e = if contains stderr (codes "error:") then some command_failed else e

abbrev pub final_error : Text → Option CmdError → Option Error
final_error stderr none = fatal stderr none
final_error stderr (some not_found) = some vbm_not_found
final_error stderr (some (exit_status text)) = fatal stderr (some (os_error text))
final_error stderr (some (other text)) = some (os_error text)

abbrev pub answer_of : Run → VbmAnswer
answer_of r = (r.stdout, r.stderr, final_error r.stderr r.error)

abbrev pub as_result : Option Error → Result (Unit {0})
as_result none = ok tt
as_result (some e) = err e

abbrev pub out_result : Text → Option Error → Result Text
out_result out none = ok out
out_result out (some e) = err e

-- An argument that is written out.
abbrev pub args_of : List String → List Text
args_of [] = []
args_of (a ∷ args) = codes a ∷ args_of args

module _ {W : Type 0} (sleep : Sleep W) (run_cmd : RunCmd W) where
  -- `retry` counts the runs that are left; the last one is never repeated.
  unfoldable pub vbm_out_err_retry : ℕ → List Text → Method W VbmAnswer
  vbm_out_err_retry zero args w = (answer_of (run_cmd args w).0, (run_cmd args w).1)
  vbm_out_err_retry (suc zero) args w = (answer_of (run_cmd args w).0, (run_cmd args w).1)
  vbm_out_err_retry (suc (suc retry)) args w =
      let again = vbm_out_err_retry (suc retry) args (sleep 100 (run_cmd args w).1) in
      if contains (run_cmd args w).0.stderr object_not_ready
      then again
      else (answer_of (run_cmd args w).0, (run_cmd args w).1)

  unfoldable pub vbm_out_err : List Text → Method W VbmAnswer
  vbm_out_err args w = vbm_out_err_retry retry_count args w

  -- `vbm`, which drops both outputs
  unfoldable pub vbm : List Text → Go W Unit
  vbm args w = let (answer, w') = vbm_out_err args w in (as_result answer.2, w')

  -- `vbmOut`, which drops the error output
  unfoldable pub vbm_out : List Text → Go W Text
  vbm_out args w = let (answer, w') = vbm_out_err args w in (out_result answer.0 answer.2, w')

-- The interface `VBoxManager`.
pub record VboxManager (W : Type 0) : Type 0 where
  pub run : List Text → Go W Unit
  pub run_out : List Text → Go W Text
  pub run_out_err : List Text → Method W VbmAnswer

-- `VBoxCmdManager`
abbrev pub vbox_cmd_manager : {W : Type 0} → Sleep W → RunCmd W → VboxManager W
vbox_cmd_manager sleep run_cmd = record {
  run = vbm sleep run_cmd;
  run_out = vbm_out sleep run_cmd;
  run_out_err = vbm_out_err sleep run_cmd;
}
