-- ===== src/VirtualBox/Network/Servers/Orphans.antt =====
-- Which DHCP servers are removed.
use p2box.Base.{
  none, ◌≡◌, ◌⊎◌, inl, inr, refl, sym, ap, subst, true, Bool-cases, Text, List, [], ◌∷◌, ◌↔◌, ◌++◌,
  codes, has_prefix, text_eq, text_eq→eq, text_eq_refl, not, ◌==◌, ==_iff, arith,
}
use p2box.VirtualBox.Network.Servers.{remove_orphans, Servers, remove_args, is_orphan, dhcp_prefix}
use p2box.VirtualBox.Network.{NetLibrary, Networks, present, find_network}
use p2box.VirtualBox.Network.Found.{and-true}
use p2box.Go.{Result, ok}
use p2box.VirtualBox.Vbm.{VboxManager}

-- A manager that keeps the arguments of its runs, the last one first.
abbrev pub Log : Type 0
Log = List (List Text)

abbrev pub recording : (List Text → Result (Unit {0})) → VboxManager Log
recording outcome = record {
  run = λ args log. (outcome args, args ∷ log);
  run_out = λ args log. (ok [], log);
  run_out_err = λ args log. (([], [], none), log);
}

abbrev pub IsNamed : Text → Servers → Type 0
IsNamed name [] = ⊥
IsNamed name ((n, d) ∷ rest) = (n ≡ name) ⊎ IsNamed name rest

-- A network of that name has an adapter.
abbrev pub HasAdapter : Text → Networks → Type 0
HasAdapter name [] = ⊥
HasAdapter name ((n, net) ∷ nets) = (n ≡ name) ⊎ HasAdapter name nets

-- The name is that of a host-only network, and the network has no adapter.
abbrev pub IsOrphan : Networks → Text → Type 0
IsOrphan nets name =
    ((rest : Text) × (name ≡ codes "HostInterfaceNetworking-" ++ rest)) × (¬ HasAdapter name nets)

abbrev pub removal_args : Text → List Text
removal_args name = codes "dhcpserver" ∷ codes "remove" ∷ codes "--netname" ∷ name ∷ []

abbrev pub RemovesOrphan : Networks → Servers → List Text → Type 0
RemovesOrphan nets dhcps args =
    (name : Text) × (args ≡ removal_args name) × IsNamed name dhcps × IsOrphan nets name

-- Every run is the removal of a server of the list whose network has no adapter.
abbrev pub AllOrphans : Networks → Servers → Log → Type 0
AllOrphans nets dhcps [] = Unit
AllOrphans nets dhcps (args ∷ log) = RemovesOrphan nets dhcps args × AllOrphans nets dhcps log

abbrev pub IsRun : List Text → Log → Type 0
IsRun args [] = ⊥
IsRun args (run ∷ log) = (run ≡ args) ⊎ IsRun args log

has_prefix→append : (s p : Text) → has_prefix s p ≡ true → (rest : Text) × (s ≡ p ++ rest)
has_prefix→append s [] h = (s, refl)
has_prefix→append [] (p ∷ ps) h = cc h
has_prefix→append (c ∷ s) (p ∷ ps) h =
    let (head, tail) = and-true (c == p) (has_prefix s ps) h in
    let (rest, e) = has_prefix→append s ps tail in
    let same : c ≡ p = (==_iff c p).0 head in (rest, cc (same, e))

append→has_prefix : (p rest : Text) → has_prefix (p ++ rest) p ≡ true
append→has_prefix [] rest = refl
append→has_prefix (c ∷ p) rest = ground (arith, append→has_prefix p rest)

present→HasAdapter :
    (name : Text) (nets : Networks) → present (find_network name nets) ≡ true → HasAdapter name nets
present→HasAdapter name [] h = cc h
present→HasAdapter name ((n, net) ∷ nets) h = elim (Bool-cases (text_eq n name)) [
  | inl e ↦ inl (text_eq→eq n name e)
  | inr e ↦ inr (present→HasAdapter name nets (rw e at h))
]

HasAdapter→present :
    (name : Text) (nets : Networks) → HasAdapter name nets → present (find_network name nets) ≡ true
HasAdapter→present name [] h = absurd h
HasAdapter→present name ((n, net) ∷ nets) (inl e) = rw (e, text_eq_refl name) refl
HasAdapter→present name ((n, net) ∷ nets) (inr h) = elim (Bool-cases (text_eq n name)) [
  | inl e ↦ rw e refl
  | inr e ↦ rw e (HasAdapter→present name nets h)
]

-- The test of the code decides what it is meant to.
is_orphan_iff : (nets : Networks) (name : Text) → (is_orphan nets name ≡ true) ↔ IsOrphan nets name
is_orphan_iff nets name = (
  λ h.
      let (a, b) =
        and-true (has_prefix name dhcp_prefix) (not (present (find_network name nets))) h in
      (has_prefix→append name dhcp_prefix a, λ there. cc (b, HasAdapter→present name nets there)),
  λ o.
      let (rest, e) = o.0 in
      let prefix : has_prefix name dhcp_prefix ≡ true =
        subst (λ s. has_prefix s dhcp_prefix ≡ true) (sym e) (append→has_prefix dhcp_prefix rest) in
      elim (Bool-cases (present (find_network name nets))) [
        | inl p ↦ absurd (o.1 (present→HasAdapter name nets p))
        | inr p ↦ rw (prefix, p) refl
      ],
)

module _ (lib : NetLibrary) (outcome : List Text → Result (Unit {0})) (nets : Networks) where
  abbrev removed : Servers → Log → Log
  removed = remove_orphans lib (recording outcome) nets

  removed-AllOrphans :
      (all rest : Servers) (log : Log)
      → ((name : Text) → IsNamed name rest → IsNamed name all)
      → AllOrphans nets all log
      → AllOrphans nets all (removed rest log)
  unfolding remove_orphans
  removed-AllOrphans all [] log within before = before
  removed-AllOrphans all ((n, d) ∷ rest) log within before = elim (Bool-cases (is_orphan nets n)) [
    | inl e ↦
        rw (e, remove_orphans)
          (removed-AllOrphans all rest (remove_args n ∷ log) (λ name m. within name (inr m))
            ((n, refl, within n (inl refl), (is_orphan_iff nets n).0 e), before))
    | inr e ↦
        rw (e, remove_orphans)
          (removed-AllOrphans all rest log (λ name m. within name (inr m)) before)
  ]

  removed-IsRun_before :
      (args : List Text) (rest : Servers) (log : Log)
      → IsRun args log
      → IsRun args (removed rest log)
  unfolding remove_orphans
  removed-IsRun_before args [] log m = m
  removed-IsRun_before args ((n, d) ∷ rest) log m = elim (Bool-cases (is_orphan nets n)) [
    | inl e ↦ rw (e, remove_orphans) (removed-IsRun_before args rest _ (inr m))
    | inr e ↦ rw (e, remove_orphans) (removed-IsRun_before args rest log m)
  ]

  removed-IsRun :
      (name : Text) (rest : Servers) (log : Log)
      → IsNamed name rest
      → is_orphan nets name ≡ true
      → IsRun (remove_args name) (removed rest log)
  unfolding remove_orphans
  removed-IsRun name [] log m o = absurd m
  removed-IsRun name ((n, d) ∷ rest) log (inl e) o =
      let here : is_orphan nets n ≡ true = subst (λ k. is_orphan nets k ≡ true) (sym e) o in
      rw (here, remove_orphans)
        (removed-IsRun_before (remove_args name) rest (remove_args n ∷ log)
          (inl (ap remove_args e)))
  removed-IsRun name ((n, d) ∷ rest) log (inr m) o = removed-IsRun name rest _ m o

  -- Among the DHCP servers, those are removed whose name has the prefix of host-only networks and
  -- stands for no adapter, and no others. A removal that fails does not keep the next ones back.
  pub remove_orphans-IsRun :
      (dhcps : Servers)
      → AllOrphans nets dhcps (remove_orphans lib (recording outcome) nets dhcps [])
        × ((name : Text)
            → IsNamed name dhcps
            → IsOrphan nets name
            → IsRun (removal_args name) (remove_orphans lib (recording outcome) nets dhcps []))
  remove_orphans-IsRun dhcps = (
    removed-AllOrphans dhcps dhcps [] (λ name m. m) tt,
    λ name m o. removed-IsRun name dhcps [] m ((is_orphan_iff nets name).1 o),
  )
