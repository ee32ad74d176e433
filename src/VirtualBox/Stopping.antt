-- ===== src/VirtualBox/Stopping.antt =====
-- Stopping a machine: the loop ends when the machine does, and what it then knows.
use p2box.Base.{[], ℕ, zero, suc, ◌≡◌, ◌<◌, false, arith, some}
use p2box.State.{State, running, state_eq}
use p2box.Go.{ok}
use p2box.VirtualBox.Machine.{Machine, get_state, state_or_fail, poll_stopped, press_button, stop}

module _ {W : Type 0} (d : Machine W) where
  -- The world in which the state is asked for the k-th time, from 0.
  abbrev pub asked_at : ℕ → W → W
  asked_at zero w = w
  asked_at (suc k) w = asked_at k (d.sleep 1000 (get_state d w).1)

  -- The machine runs at each of the first k queries.
  abbrev pub Running : ℕ → W → Type 0
  Running zero w = Unit
  Running (suc k) w =
      ((state_or_fail d w).0 ≡ ok running) × Running k (d.sleep 1000 (get_state d w).1)

  poll_stopped-ends :
      (fuel k : ℕ) (s : State) (w : W)
      → k < fuel
      → Running k w
      → (state_or_fail d (asked_at k w)).0 ≡ ok s
      → state_eq s running ≡ false
      → poll_stopped d fuel w ≡ some (ok tt, (get_state d (asked_at k w)).1)
  unfolding poll_stopped
  poll_stopped-ends zero k s w lt runs e ne = absurd (omega arith)
  poll_stopped-ends (suc fuel) zero s w lt runs e ne = rw (e, poll_stopped, ne)
  poll_stopped-ends (suc fuel) (suc k) s w lt (r, runs) e ne =
      rw (r, poll_stopped) (poll_stopped-ends fuel k s _ (omega arith) runs e ne)

  -- If the button can be pressed, and the machine leaves the state "running" after k queries that
  -- found it there, then the stop succeeds on any fuel above k, and the address is forgotten.
  pub stop_ends :
      (fuel k : ℕ) (s : State) (w : W)
      → (press_button d w).0 ≡ ok tt
      → k < fuel
      → Running k (press_button d w).1
      → (state_or_fail d (asked_at k (press_button d w).1)).0 ≡ ok s
      → state_eq s running ≡ false
      → stop d fuel w
        ≡ some (ok tt, d.set_ip_address [] (get_state d (asked_at k (press_button d w).1)).1)
  unfolding stop
  stop_ends fuel k s w b lt runs e ne =
      rw (b, stop, poll_stopped-ends fuel k s (press_button d w).1 lt runs e ne)
