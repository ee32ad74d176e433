-- ===== src/Tests/Wait.antt =====
-- Polling at a counter.
use p2box.Wait.Polls.{wait_for_specific_or_error_outcome, world_at, verdict, answer_at, Quiet}
use p2box.Base.{◌⊎◌, ◌≡◌, false, ◌≢◌, ◌<◌, ◌/◌, ℕ, ◌+◌, ltb}
use p2box.Wait.{without_error, wait_for_specific_or_error, WaitTest}
use p2box.Go.{ok, err, retries_exceeded}

-- The clock counts seconds, and a machine is up from the tenth second on.
abbrev is_up : WaitTest ℕ
is_up now = (ltb 9 now, now)

abbrev sleep : ℕ → ℕ → ℕ
sleep ms now = now + ms / 1000

wait_for_specific_or_error_outcome_example :
    ((k : ℕ) × (k < 5)
      × Quiet sleep (without_error is_up) 4000 k 0
      × ((answer_at sleep (without_error is_up) 4000 k 0).0 ≢ ok false)
      × (wait_for_specific_or_error sleep (without_error is_up) 5 4000 0
          ≡ verdict (answer_at sleep (without_error is_up) 4000 k 0)))
    ⊎ (Quiet sleep (without_error is_up) 4000 5 0
        × (wait_for_specific_or_error sleep (without_error is_up) 5 4000 0
            ≡ (err (retries_exceeded 5), world_at sleep (without_error is_up) 4000 5 0)))
wait_for_specific_or_error_outcome_example =
    wait_for_specific_or_error_outcome sleep (without_error is_up) 5 4000 0
