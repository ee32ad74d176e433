-- ===== src/VirtualBox/Retry.antt =====
-- How often VBoxManage is run.
use p2box.Base.{
  ℕ, zero, suc, ◌≡◌, ◌∙◌, ◌<◌, ◌⊎◌, inl, inr, refl, Bool, true, false, Bool-cases, arith, contains,
  Text, List,
}
use p2box.Wait.{Sleep}
use p2box.VirtualBox.Vbm.{RunCmd, object_not_ready, answer_of, vbm_out_err_retry, vbm_out_err}

module _ {W : Type 0} (sleep : Sleep W) (run_cmd : RunCmd W) (args : List Text) where
  -- The world before the k-th run, from 0.
  abbrev pub before_run : ℕ → W → W
  before_run zero w = w
  before_run (suc k) w = before_run k (sleep 100 (run_cmd args w).1)

  abbrev pub is_not_ready : W → Bool
  is_not_ready w = contains (run_cmd args w).0.stderr object_not_ready

  -- The first k runs all reported that the object is not ready.
  abbrev pub NotReady : ℕ → W → Type 0
  NotReady zero w = Unit
  NotReady (suc k) w = (is_not_ready w ≡ true) × NotReady k (sleep 100 (run_cmd args w).1)

  abbrev Answered : ℕ → W → Type 0
  Answered n w =
      (k : ℕ) × (k < n)
      × NotReady k w
      × ((is_not_ready (before_run k w) ≡ false) ⊎ (suc k ≡ n))
      × (vbm_out_err_retry sleep run_cmd n args w
          ≡ (answer_of (run_cmd args (before_run k w)).0, (run_cmd args (before_run k w)).1))

  retry_again :
      (n : ℕ) (w : W)
      → is_not_ready w ≡ true
      → vbm_out_err_retry sleep run_cmd (suc (suc n)) args w
        ≡ vbm_out_err_retry sleep run_cmd (suc n) args (sleep 100 (run_cmd args w).1)
  unfolding vbm_out_err_retry
  retry_again n w e = rw e

  answered : (n : ℕ) (w : W) → Answered (suc n) w
  unfolding vbm_out_err_retry
  answered zero w = (0, omega arith, tt, inr refl, refl)
  answered (suc n) w = elim (Bool-cases (is_not_ready w)) [
    | inl e ↦
        let (k, lt, quiet, last, r) = answered n (sleep 100 (run_cmd args w).1) in
        (suc k, omega arith, (e, quiet), later k last, retry_again n w e ∙ r)
    | inr e ↦ (0, omega arith, tt, inl e, rw e)
  ]
    where
      later :
          (k : ℕ)
          → (is_not_ready (before_run (suc k) w) ≡ false) ⊎ (suc k ≡ suc n)
          → (is_not_ready (before_run (suc k) w) ≡ false) ⊎ (suc (suc k) ≡ suc (suc n))
      later k (inl q) = inl q
      later k (inr q) = inr (omega arith)

  -- VBoxManage is run at most 5 times, 100 milliseconds apart: until a run does not report that
  -- the object is not ready. The answer is that of the last run.
  pub vbm_out_err_answers :
      (w : W)
      → (k : ℕ) × (k < 5)
        × NotReady k w
        × ((is_not_ready (before_run k w) ≡ false) ⊎ (suc k ≡ 5))
        × (vbm_out_err sleep run_cmd args w
            ≡ (answer_of (run_cmd args (before_run k w)).0, (run_cmd args (before_run k w)).1))
  unfolding vbm_out_err
  vbm_out_err_answers w = answered 4 w
