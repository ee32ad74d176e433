-- ===== src/VirtualBox/Removing.antt =====
-- Removing a machine from VirtualBox.
use p2box.Base.{codes, ◌∙◌, arith, sym, if◌then◌else◌, ◌≡◌, ◌⊎◌, inl, inr, [], ◌∷◌, not, ◌&&◌, ap}
use p2box.State.{State, stopped, saved, state_eq}
use p2box.Go.{Error, machine_not_exist, Result, ok, err, pure}
use p2box.Go.Laws.{>>=-eq-ok, Result-cases}
use p2box.VirtualBox.Machine.{
  Machine, get_state, state_or_fail, kill, remove, remove_in, unless_gone,
}

unless_gone-eq-ok : (e : Error) → unless_gone e ≡ ok tt → e ≡ machine_not_exist
unless_gone-eq-ok e h = ground arith

module _ {W : Type 0} (d : Machine W) where
  abbrev pub unregister : W → Result (Unit {0}) × W
  unregister = d.vbox.run (codes "unregistervm" ∷ codes "--delete" ∷ d.name ∷ [])

  -- What is done to a machine in a state before it is unregistered.
  abbrev pub halt : State → W → Result (Unit {0}) × W
  halt s = if not (state_eq s stopped) && not (state_eq s saved) then kill d else pure tt

  remove_known :
      (w : W) (s : State)
      → (state_or_fail d w).0 ≡ ok s
      → remove d w ≡ remove_in d s (get_state d w).1
  unfolding remove
  remove_known w s e = rw (e, remove)

  remove_unknown :
      (w : W) (x : Error) → (state_or_fail d w).0 ≡ err x → (remove d w).0 ≡ unless_gone x
  unfolding remove
  remove_unknown w x e = rw (e, remove)

  -- A machine is removed only if VirtualBox does not know it, or if it was unregistered after its
  -- power was turned off, where its state was neither stopped nor saved.
  pub remove-ok :
      (w : W)
      → (remove d w).0 ≡ ok tt
      → ((state_or_fail d w).0 ≡ err machine_not_exist)
        ⊎ ((s : State) × ((state_or_fail d w).0 ≡ ok s)
            × ((halt s (get_state d w).1).0 ≡ ok tt)
            × ((unregister (halt s (get_state d w).1).1).0 ≡ ok tt))
  remove-ok w h = elim (Result-cases (state_or_fail d w).0) [
    | inl (s, e) ↦
        let (u, halted, gone) =
          >>=-eq-ok (halt s) (λ _. unregister) (get_state d w).1
            (sym (ap (λ r. r.0) (remove_known w s e)) ∙ h) in
        inr (s, e, halted, gone)
    | inr (x, e) ↦ inl (e ∙ ap err (unless_gone-eq-ok x (sym (remove_unknown w x e) ∙ h)))
  ]
