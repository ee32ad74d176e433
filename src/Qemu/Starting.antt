-- ===== src/Qemu/Starting.antt =====
-- drivers/qemu/qemu.go: running QEMU and waiting for the machine.
use p2box.Base.{
  ◌<>◌, ℕ, zero, suc, ℤ, Bool, String, Text, codes, contains, List, Option, none, some,
  if◌then◌else◌,
}
use p2box.Go.{Error, message, Result, ok, err, Go}
use p2box.Drivers.{Method}
use p2box.Qemu.{Driver}
use p2box.Qemu.Command.{start_command}

-- The output of a run and its error. `run` is `cmd.Run` of os/exec.
pub record Runner (W : Type 0) : Type 0 where
  pub run : String → List String → Method W (Text × Option Error)
  pub has_kvm : Method W Bool
  -- the attempts of WaitForTCPWithDelay: a connection that can be read from
  pub dial_and_read : String → Method W Bool

-- A run that exits well, but says "error:" on its standard error, has failed as well.
abbrev pub run_result : Text × Option Error → Result (Unit {0})
run_result (stderr, some e) = err e
run_result (stderr, none) =
    if contains stderr (codes "error:") then err (message "failed") else ok tt

module _ {W : Type 0} (r : Runner W) where
  unfoldable pub cmd_out_err : String → List String → Go W Unit
  cmd_out_err cmd_str args w = let (answer, w') = r.run cmd_str args w in (run_result answer, w')

  -- The loop has no bound. Fuel is a number of attempts, and there is no result where it is used up.
  unfoldable pub wait_for_tcp_with_delay : ℕ → String → W → Option W
  wait_for_tcp_with_delay zero addr w = none
  wait_for_tcp_with_delay (suc fuel) addr w =
      let (answers, w') = r.dial_and_read addr w in
      let again = wait_for_tcp_with_delay fuel addr w' in if answers then some w' else again

  abbrev pub waited : Option W → Option (Result (Unit {0}) × W)
  waited none = none
  waited (some w) = some (ok tt, w)

  abbrev pub wait_if_run : ℕ → String → Result (Unit {0}) × W → Option (Result (Unit {0}) × W)
  wait_if_run fuel addr (ok u, w) = waited (wait_for_tcp_with_delay fuel addr w)
  wait_if_run fuel addr (err e, w) = some (err e, w)

  module _ (join : List String → String) (decimal : ℤ → String) where
    -- The machine is waited for at the ssh port of this computer, whatever its network.
    unfoldable pub start : ℕ → Driver → W → Option (Result (Unit {0}) × W)
    start fuel d w =
        let (kvm, w') = r.has_kvm w in
        wait_if_run fuel ("localhost:" <> decimal d.ssh_port)
          (cmd_out_err d.program (start_command join decimal d kvm) w')
