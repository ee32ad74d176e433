-- ===== src/Rpc/Register.antt =====
-- libmachine/drivers/plugin/register_driver.go: the main loop of the process of a driver.
use p2box.Base.{ℕ, String, List, [], ◌∷◌, Option, none, some, str_eq, if◌then◌else◌}
use p2box.Go.{Result, ok, err}

-- What ends the wait of the loop: a send on `CloseCh` or `HeartbeatCh`, or ten seconds without.
pub data Signal : Type 0 where
  close_signal heartbeat_signal timeout_signal : Signal

-- The code of the exit, none while the process runs.
unfoldable pub register_loop : List Signal → Option ℕ
register_loop [] = none
register_loop (close_signal ∷ signals) = some 0
register_loop (heartbeat_signal ∷ signals) = register_loop signals
register_loop (timeout_signal ∷ signals) = some 1

-- The address that was printed, and the code of the exit.
pub record PluginProcess : Type 0 where
  pub printed : Option String
  pub exit_code : Option ℕ

abbrev pub listening : Result String → List Signal → PluginProcess
listening (err e) signals = record { printed = none; exit_code = some 1 }
listening (ok addr) signals = record { printed = some addr; exit_code = register_loop signals }

-- `token` is the value of the variable for plugins in the environment, `listen` what net.Listen
-- answers.
unfoldable pub register_driver : String → Result String → List Signal → PluginProcess
register_driver token listen signals =
    if str_eq token "42"
    then listening listen signals
    else record { printed = none; exit_code = some 1 }
