-- ===== src/Host/Action.antt =====
-- What an action on a machine does and when it succeeds.
use p2box.Base.{false, ◌≡◌, ◌<◌, ℕ, Bool-cases, inl, inr, ◌≢◌}
use p2box.Wait.{wait_for, without_error}
use p2box.Wait.Polls.{Quiet, Passed, world_at, wait_for-ok, wait_for-reaches}
use p2box.State.{State, state_eq, state_eq_iff}
use p2box.Go.{ok, err, Go, host_already_in_state}
use p2box.Go.Laws.{>>=-eq-ok}
use p2box.Drivers.{Driver, System, machine_in_state}
use p2box.Host.{Host, run_action_for_state}

-- The state that the driver reports.
abbrev pub reported : {W : Type 0} → Driver W → W → State
reported d w = (d.get_state w).0.0

not-state_eq : {a b : State} → a ≢ b → state_eq a b ≡ false
not-state_eq {a} {b} ne = elim (Bool-cases (state_eq a b)) [
  | inl e ↦ absurd (ne ((state_eq_iff a b).0 e))
  | inr e ↦ e
]

module _ {W : Type 0} (sys : System W) (h : Host W) (action : Go W Unit) (desired : State)
    (w : W) where
  -- A machine that is in the state already is reported, and nothing but the query has been done.
  pub run_action_for_state_already :
      reported h.driver w ≡ desired
      → run_action_for_state sys h action desired w
        ≡ (err (host_already_in_state h.name desired), (h.driver.get_state w).1)
  unfolding run_action_for_state machine_in_state
  run_action_for_state_already e = rw ((state_eq_iff (reported h.driver w) desired).1 e)

  -- The world after the first query, in which the action runs.
  abbrev pub queried : W
  queried = (h.driver.get_state w).1

  -- An action reports success only if the machine was not in the state yet, the action itself
  -- succeeded, and then one of 60 queries, 3 seconds apart, found the machine in the state. The
  -- world is left as that query left it.
  pub run_action_for_state-ok :
      (run_action_for_state sys h action desired w).0 ≡ ok tt
      → (reported h.driver w ≢ desired)
        × ((action queried).0 ≡ ok tt)
        × Passed sys.sleep
            (machine_in_state h.driver desired)
            60
            3000
            (action queried).1
            (run_action_for_state sys h action desired w).1
  unfolding run_action_for_state machine_in_state
  run_action_for_state-ok ok_h = elim (Bool-cases (state_eq (reported h.driver w) desired)) [
    | inl e ↦ cc (rw e at ok_h)
    | inr e ↦
        let (u, acted, waited) =
          >>=-eq-ok action (λ _. wait_for sys.sleep (machine_in_state h.driver desired)) queried
            (rw e at ok_h) in
        (
          (λ p. cc (e, (state_eq_iff (reported h.driver w) desired).1 p)),
          acted,
          rw (e, acted)
              (wait_for-ok sys.sleep (machine_in_state h.driver desired) (action queried).1 waited),
        )
  ]

  -- If the machine is not in the state, the action succeeds, and one of the next 60 queries finds
  -- the machine in the state after queries that did not, then the action as a whole succeeds.
  pub run_action_for_state-reaches :
      (k : ℕ)
      → reported h.driver w ≢ desired
      → (action queried).0 ≡ ok tt
      → k < 60
      → Quiet sys.sleep
          (without_error (machine_in_state h.driver desired))
          3000
          k
          (action queried).1
      → reported h.driver (
          world_at sys.sleep
            (without_error (machine_in_state h.driver desired))
            3000
            k
            (action queried).1)
        ≡ desired
      → (run_action_for_state sys h action desired w).0 ≡ ok tt
  unfolding run_action_for_state machine_in_state
  run_action_for_state-reaches k ne a lt quiet r = rw (
    not-state_eq ne,
    a,
    wait_for-reaches sys.sleep (machine_in_state h.driver desired) k (action queried).1 lt quiet
        ((state_eq_iff _ desired).1 r),
  )
