-- ===== src/Qemu/Monitor/Outcomes.antt =====
-- What a removal and a query of the state have done where they succeed.
use p2box.Base.{subst, if◌then◌else◌, not, ◌≡◌, ◌⊎◌, inl, inr, Bool-cases}
use p2box.State.{State, running, stopped, state_eq, state_eq_iff}
use p2box.Go.{ok, pure}
use p2box.Go.Laws.{>>=-eq-ok}
use p2box.Qemu.{Driver}
use p2box.Qemu.Monitor.{Machinery, query_state, kill, quit, remove}

module _ {W : Type 0} (m : Machinery W) (d : Driver) (w : W) where
  abbrev pub queried : W
  queried = (query_state m d w).1

  -- The world after the machine was powered down, where it ran.
  abbrev pub powered_down : State → W
  powered_down s = ((if state_eq s running then kill m d else pure tt) queried).1

  -- A removal succeeds only if the state of the machine could be asked for; if a machine that ran
  -- took the command to power down; and if the machine was stopped or took the command to quit.
  pub remove-ok :
      (remove m d w).0 ≡ ok tt
      → (s : State) × ((query_state m d w).0 ≡ ok s)
        × ((s ≡ running) → (kill m d queried).0 ≡ ok tt)
        × ((s ≡ stopped) ⊎ ((quit m d (powered_down s)).0 ≡ ok tt))
  unfolding remove
  remove-ok k =
      let (s, q, k1) = >>=-eq-ok (query_state m d) _ w k in
      let (u, p, k2) = >>=-eq-ok (if state_eq s running then kill m d else pure tt) _ queried k1 in
      (
        s,
        q,
        λ e.
            subst (λ b. ((if b then kill m d else pure tt) queried).0 ≡ ok u)
              ((state_eq_iff s running).1 e) p,
        elim (Bool-cases (state_eq s stopped)) [
          | inl e ↦ inl ((state_eq_iff s stopped).0 e)
          | inr e ↦
              inr (
                subst (λ b. ((if not b then quit m d else pure tt) (powered_down s)).0 ≡ ok tt) e
                  k2)
        ],
      )
