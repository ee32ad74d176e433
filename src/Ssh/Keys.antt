-- ===== src/Ssh/Keys.antt =====
-- Which keys an external ssh client is given.
use p2box.Base.{
  ℕ, ℤ, ◌≡◌, ◌⊎◌, inl, inr, refl, ap, sym, ◌∙◌, Bool-cases, true, false, String, List, [], ◌∷◌,
  ◌++◌, ◌<>◌, str_eq, if◌then◌else◌,
}
use p2box.Go.{Result, ok, err}
use p2box.Go.Laws.{Result-cases, ok-injective}
use p2box.Drivers.{Auth}
use p2box.Ssh.{
  ExternalClient, base_ssh_args, is_readable, is_private, key_check, onto_keys, key_args,
  identities_only, new_external_client,
}

-- Every key with a path may be read by its owner and by no one else.
abbrev pub AllPrivate : (String → Result ℕ) → List String → Type 0
AllPrivate permissions [] = Unit
AllPrivate permissions (key ∷ keys) =
    ((str_eq key "" ≡ true)
      ⊎ ((perm : ℕ) × (permissions key ≡ ok perm)
          × (is_readable perm ≡ true)
          × (is_private perm ≡ true)))
    × AllPrivate permissions keys

-- The arguments for the keys that have a path.
abbrev pub identity_args : List String → List String
identity_args [] = []
identity_args (key ∷ keys) =
    let rest = identity_args keys in if str_eq key "" then rest else "-i" ∷ key ∷ rest

module _ (permissions : String → Result ℕ) (decimal : ℤ → String) where
  key_check-ok :
      (key : String) (r : Result ℕ)
      → key_check permissions false decimal key r ≡ ok tt
      → (perm : ℕ) × (r ≡ ok perm) × (is_readable perm ≡ true) × (is_private perm ≡ true)
  key_check-ok key (err e) h = cc h
  key_check-ok key (ok perm) h = elim (Bool-cases (is_readable perm)) [
    | inr e ↦ cc (rw e at h)
    | inl e ↦ elim (Bool-cases (is_private perm)) [
      | inr f ↦ cc (rw (e, f) at h)
      | inl f ↦ (perm, refl, e, f)
    ]
  ]

  onto_keys-ok :
      (key : String) (c : Result (Unit {0})) (later : Result (List String)) (args : List String)
      → onto_keys permissions false decimal key c later ≡ ok args
      → (c ≡ ok tt) × (rest : List String) × (later ≡ ok rest) × (args ≡ "-i" ∷ key ∷ rest)
  onto_keys-ok key (err e) later args h = cc h
  onto_keys-ok key (ok u) (err e) args h = cc h
  onto_keys-ok key (ok u) (ok rest) args h = (refl, rest, refl, sym (ok-injective h))

  key_args-AllPrivate :
      (keys args : List String)
      → key_args permissions false decimal keys ≡ ok args
      → AllPrivate permissions keys × (args ≡ identity_args keys)
  unfolding key_args
  key_args-AllPrivate [] args h = (tt, sym (ok-injective h))
  key_args-AllPrivate (key ∷ keys) args h = elim (Bool-cases (str_eq key "")) [
    | inl e ↦
        let (all, q) = key_args-AllPrivate keys args (rw (e, key_args) at h) in
        ((inl e, all), rw e q)
    | inr e ↦
        let (c, rest, later, q) = onto_keys-ok key _ _ args (rw (e, key_args) at h) in
        let (all, r) = key_args-AllPrivate keys rest later in
        ((inr (key_check-ok key (permissions key) c), all), rw e (q ∙ ap (λ t. "-i" ∷ key ∷ t) r))
  ]

  -- Where an external client is made on a system with permissions, every key that it is given with a
  -- path can be read by its owner and by no one else. Its arguments are those that are common to all
  -- clients, the user and the host, the keys with a path, and the port.
  pub new_external_client-AllPrivate :
      (ssh_binary_path user host : String) (port : ℤ) (auth : Auth) (client : ExternalClient)
      → new_external_client permissions false decimal ssh_binary_path user host port auth
        ≡ ok client
      → AllPrivate permissions auth.keys
        × (client ≡ record {
          base_args =
              base_ssh_args
              ++ ((user <> ("@" <> host))
                  ∷ (identities_only permissions false decimal auth.keys
                      ++ (identity_args auth.keys ++ ("-p" ∷ decimal port ∷ []))));
          binary_path = ssh_binary_path;
        })
  unfolding new_external_client
  new_external_client-AllPrivate ssh_binary_path user host port auth client h =
      elim (Result-cases (key_args permissions false decimal auth.keys)) [
        | inr (e, q) ↦ cc (rw q at h)
        | inl (args, q) ↦
            let (all, r) = key_args-AllPrivate auth.keys args q in
            (all, rw (sym r) (sym (ok-injective (rw q at h))))
      ]
