-- ===== src/Wait/Polls.antt =====
-- What a bounded poll returns, for every test and every number of attempts.
use p2box.Base.{ℕ, zero, suc, ◌≡◌, ◌≢◌, ◌<◌, ◌⊎◌, inl, inr, refl, ap, Bool, true, false, arith}
use p2box.Go.{Go, Result, retries_exceeded, ok, err}
use p2box.Wait.{
  Sleep, WaitTest, wait_loop, wait_for_specific_or_error, without_error, wait_for_specific,
  wait_for,
}

module _ {W : Type 0} (sleep : Sleep W) (f : Go W Bool) (wait_interval : ℕ) where
  -- The world in which the test is asked for the k-th time, from 0.
  abbrev pub world_at : ℕ → W → W
  world_at zero w = w
  world_at (suc k) w = world_at k (sleep wait_interval (f w).1)

  abbrev pub answer_at : ℕ → W → Result Bool × W
  answer_at k w = f (world_at k w)

  -- The first k answers are all "not yet".
  abbrev pub Quiet : ℕ → W → Type 0
  Quiet zero w = Unit
  Quiet (suc k) w = ((f w).0 ≡ ok false) × Quiet k (sleep wait_interval (f w).1)

-- What an answer other than "not yet" makes of the poll.
abbrev pub verdict : {W : Type 0} → Result Bool × W → Result (Unit {0}) × W
verdict (ok stop, w) = (ok tt, w)
verdict (err e, w) = (err e, w)

module _ {W : Type 0} (sleep : Sleep W) (f : Go W Bool) (max_attempts wait_interval : ℕ) where
  abbrev Ending : ℕ → W → Type 0
  Ending n w =
      ((k : ℕ) × (k < n)
        × Quiet sleep f wait_interval k w
        × ((answer_at sleep f wait_interval k w).0 ≢ ok false)
        × (wait_loop sleep f max_attempts wait_interval n w
            ≡ verdict (answer_at sleep f wait_interval k w)))
      ⊎ (Quiet sleep f wait_interval n w
          × (wait_loop sleep f max_attempts wait_interval n w
              ≡ (err (retries_exceeded max_attempts), world_at sleep f wait_interval n w)))

  wait_loop_outcome : (n : ℕ) (w : W) → Ending n w
  unfolding wait_loop
  wait_loop_outcome zero w = inr (tt, refl)
  wait_loop_outcome (suc n) w =
      by_answer (f w).0 refl (wait_loop_outcome n (sleep wait_interval (f w).1))
    where
      by_answer :
          (r : Result Bool)
          → (f w).0 ≡ r
          → Ending n (sleep wait_interval (f w).1)
          → Ending (suc n) w
      by_answer (err e) h ih = inl (0, omega arith, tt, (λ q. cc (h, q)), rw (h, wait_loop))
      by_answer (ok true) h ih = inl (0, omega arith, tt, (λ q. cc (h, q)), rw (h, wait_loop))
      by_answer (ok false) h (inl (k, lt, quiet, ne, e)) =
          inl (suc k, omega arith, (h, quiet), ne, rw (h, wait_loop) e)
      by_answer (ok false) h (inr (quiet, e)) = inr ((h, quiet), rw (h, wait_loop) e)

wait_loop-reaches :
    {W : Type 0} (sleep : Sleep W) (f : WaitTest W) (m i n k : ℕ) (w : W)
    → k < n
    → Quiet sleep (without_error f) i k w
    → (f (world_at sleep (without_error f) i k w)).0 ≡ true
    → wait_loop sleep (without_error f) m i n w
      ≡ (ok tt, (f (world_at sleep (without_error f) i k w)).1)
unfolding wait_loop
wait_loop-reaches sleep f m i zero k w lt quiet pass = absurd (omega arith)
wait_loop-reaches sleep f m i (suc n) zero w lt quiet pass = rw (pass, wait_loop)
wait_loop-reaches sleep f m i (suc n) (suc k) w lt (q, quiet) pass =
    let e : (f w).0 ≡ false = cc q in
    rw (e, wait_loop) (wait_loop-reaches sleep f m i n k _ (omega arith) quiet pass)

not-false : (b : Bool) → ◌≢◌ {A = Result Bool} (ok b) (ok false) → b ≡ true
not-false true h = refl
not-false false h = absurd (h refl)

module _ {W : Type 0} (sleep : Sleep W) where
  -- The poll stops at the first answer that is not "not yet", if one comes within the attempts,
  -- and returns what that answer makes of it, in the world it left. Otherwise every one of the
  -- attempts answered "not yet", and the poll fails with the number of attempts.
  pub wait_for_specific_or_error_outcome :
      (f : Go W Bool) (max_attempts wait_interval : ℕ) (w : W)
      → ((k : ℕ) × (k < max_attempts)
          × Quiet sleep f wait_interval k w
          × ((answer_at sleep f wait_interval k w).0 ≢ ok false)
          × (wait_for_specific_or_error sleep f max_attempts wait_interval w
              ≡ verdict (answer_at sleep f wait_interval k w)))
        ⊎ (Quiet sleep f wait_interval max_attempts w
            × (wait_for_specific_or_error sleep f max_attempts wait_interval w ≡ (
              err (retries_exceeded max_attempts),
              world_at sleep f wait_interval max_attempts w,
            )))
  unfolding wait_for_specific_or_error
  wait_for_specific_or_error_outcome f max_attempts wait_interval w =
      wait_loop_outcome sleep f max_attempts wait_interval max_attempts w

  -- What holds after the poll says that the test passed.
  abbrev pub Passed : WaitTest W → ℕ → ℕ → W → W → Type 0
  Passed f max_attempts wait_interval w w' =
      (k : ℕ) × (k < max_attempts)
      × Quiet sleep (without_error f) wait_interval k w
      × ((f (world_at sleep (without_error f) wait_interval k w)).0 ≡ true)
      × (w' ≡ (f (world_at sleep (without_error f) wait_interval k w)).1)

  -- A poll of a test without errors succeeds only at a passed test, which came after failed tests
  -- alone and within the attempts, and it leaves the world as that test left it.
  pub wait_for_specific-ok :
      (f : WaitTest W) (max_attempts wait_interval : ℕ) (w : W)
      → (wait_for_specific sleep f max_attempts wait_interval w).0 ≡ ok tt
      → Passed f max_attempts wait_interval w
          (wait_for_specific sleep f max_attempts wait_interval w).1
  unfolding wait_for_specific wait_for_specific_or_error
  wait_for_specific-ok f m i w h = elim (wait_loop_outcome sleep (without_error f) m i m w) [
    | inl (k, lt, quiet, ne, e) ↦ (
      k,
      lt,
      quiet,
      not-false (f (world_at sleep (without_error f) i k w)).0 ne,
      ap (λ (t : Result (Unit {0}) × W). t.1) e,
    )
    | inr (quiet, e) ↦ cc (h, ap (λ (t : Result (Unit {0}) × W). t.0) e)
  ]

  -- `wait_for` succeeds only at a passed test, the first of at most 60, asked 3 seconds apart.
  pub wait_for-ok :
      (f : WaitTest W) (w : W)
      → (wait_for sleep f w).0 ≡ ok tt
      → Passed f 60 3000 w (wait_for sleep f w).1
  unfolding wait_for
  wait_for-ok f w h = wait_for_specific-ok f 60 3000 w h

  -- A test that passes at one of the first 60 times, after failed tests alone, makes the poll
  -- succeed there.
  pub wait_for-reaches :
      (f : WaitTest W) (k : ℕ) (w : W)
      → k < 60
      → Quiet sleep (without_error f) 3000 k w
      → (f (world_at sleep (without_error f) 3000 k w)).0 ≡ true
      → wait_for sleep f w ≡ (ok tt, (f (world_at sleep (without_error f) 3000 k w)).1)
  unfolding wait_for wait_for_specific wait_for_specific_or_error
  wait_for-reaches f k w lt quiet pass = wait_loop-reaches sleep f 60 3000 60 k w lt quiet pass
