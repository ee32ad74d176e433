-- ===== src/Wait.antt =====
-- libmachine/mcnutils/utils.go: polling with a bounded number of attempts.
pub mod Polls
use p2box.Base.{ℕ, zero, suc, Bool, true, false}
use p2box.Go.{retries_exceeded, ok, err, Go}

-- `time.Sleep`: what happens in the world while the program waits for some milliseconds.
abbrev pub Sleep : Type 0 → Type 0
Sleep W = ℕ → W → W

module _ {W : Type 0} (sleep : Sleep W) (f : Go W Bool) (max_attempts wait_interval : ℕ) where
  -- The rounds of the loop that are left.
  wait_loop : ℕ → Go W Unit
  wait_loop zero w = (err (retries_exceeded max_attempts), w)
  wait_loop (suc rounds) w = elim (f w).0 [
    | err e ↦ (err e, (f w).1)
    | ok stop ↦ elim stop [
      | true ↦ (ok tt, (f w).1)
      | false ↦ wait_loop rounds (sleep wait_interval (f w).1)
    ]
  ]

  unfoldable pub wait_for_specific_or_error : Go W Unit
  unfolding wait_loop
  wait_for_specific_or_error = wait_loop max_attempts

-- A test that cannot fail: it answers, and may change the world.
abbrev pub WaitTest : Type 0 → Type 0
WaitTest W = W → Bool × W

-- The closure that `WaitForSpecific` hands on.
abbrev pub without_error : {W : Type 0} → WaitTest W → Go W Bool
without_error f w = let (stop, w') = f w in (ok stop, w')

module _ {W : Type 0} (sleep : Sleep W) (f : WaitTest W) where
  unfoldable pub wait_for_specific : ℕ → ℕ → Go W Unit
  unfolding wait_for_specific_or_error
  wait_for_specific max_attempts wait_interval =
      wait_for_specific_or_error sleep (without_error f) max_attempts wait_interval

  -- 60 attempts, 3 seconds apart.
  unfoldable pub wait_for : Go W Unit
  wait_for = wait_for_specific 60 3000
