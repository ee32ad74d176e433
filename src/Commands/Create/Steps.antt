-- ===== src/Commands/Create/Steps.antt =====
-- The order of the steps of the command create, and what stops it.
use p2box.Base.{String, [], ◌∷◌, true, false, codes, ◌≡◌, refl}
use p2box.Go.{ok, err, host_already_exists, Error}
use p2box.Host.{Host}
use p2box.Commands.Create.Values.{CommandLine}
use p2box.Commands.Create.{
  CreateApi, cmd_create_inner, new_machine, checked_name, set_flags, validate_host_name,
}

module _ {W : Type 0} (api : CreateApi W) (c : CommandLine) (w : W) where
  -- The worlds between the steps, with the name and the host of the machine.
  module _ (name : String) (h : Host W) where
    abbrev pub made : W
    made = (new_machine api c name w).1

    abbrev pub asked : W
    asked = (api.store.exists h.name made).1

    abbrev pub flagged : W
    flagged = (set_flags api c h asked).1

    abbrev pub built : W
    built = (api.create_host h flagged).1

    -- What a successful creation went through.
    abbrev pub Created : Type 0
    Created =
        (c.args ≡ name ∷ [])
        × (validate_host_name (codes name) ≡ true)
        × ((new_machine api c name w).0 ≡ ok h)
        × ((api.store.exists h.name made).0 ≡ ok false)
        × ((set_flags api c h asked).0 ≡ ok tt)
        × ((api.create_host h flagged).0 ≡ ok tt)
        × ((api.store.save h built).0 ≡ ok tt)

  -- A machine of the name of another one is not created: the command ends with an error after the
  -- question whether the name is taken, and sets, creates and saves nothing.
  pub cmd_create_inner_exists :
      (name : String) (h : Host W)
      → checked_name c.args ≡ ok name
      → (new_machine api c name w).0 ≡ ok h
      → (api.store.exists h.name (made name h)).0 ≡ ok true
      → cmd_create_inner api c w ≡ (err (host_already_exists h.name), asked name h)
  unfolding cmd_create_inner
  cmd_create_inner_exists name h a n e = rw (a, n, e) refl

  -- Arguments that are no one valid name end the command before it does anything.
  pub cmd_create_inner_refuses :
      (e : Error) → checked_name c.args ≡ err e → cmd_create_inner api c w ≡ (err e, w)
  unfolding cmd_create_inner
  cmd_create_inner_refuses e a = rw a refl
