-- ===== src/Persist/Hosts.antt =====
-- libmachine/persist/store.go: the interface of a store, and loading many hosts.
use p2box.Base.{Bool, String, List, [], ◌∷◌, ◌++◌, str_eq, if◌then◌else◌}
use p2box.Go.{Error, Result, ok, err, Go, ◌>>=◌}
use p2box.Drivers.{call}

-- persist.Store
pub record Store (W H : Type 0) : Type 0 where
  pub exists : String → Go W Bool
  pub list : Go W (List String)
  pub load : String → Go W H
  pub remove : String → Go W Unit
  pub save : H → Go W Unit

-- errors[name] = e
abbrev pub put_error : String → Error → List (String × Error) → List (String × Error)
put_error name e [] = (name, e) ∷ []
put_error name e ((n, old) ∷ rest) =
    if str_eq n name then (name, e) ∷ rest else (n, old) ∷ put_error name e rest

-- The hosts that could be loaded, and the errors of the others by name.
abbrev pub Loaded : Type 0 → Type 0
Loaded H = List H × List (String × Error)

module _ {W H : Type 0} (s : Store W H) where
  abbrev add_loaded : String → Result H → Loaded H → Loaded H
  add_loaded name (ok h) (hosts, errors) = (hosts ++ (h ∷ []), errors)
  add_loaded name (err e) (hosts, errors) = (hosts, put_error name e errors)

  -- The loop over the names, from what the earlier ones gave.
  load_hosts_from : List String → Loaded H → W → Loaded H × W
  load_hosts_from [] acc w = (acc, w)
  load_hosts_from (name ∷ names) acc w =
      let (r, w') = s.load name w in load_hosts_from names (add_loaded name r acc) w'

  unfoldable pub load_hosts : List String → W → Loaded H × W
  unfolding load_hosts_from
  load_hosts names w = load_hosts_from names ([], []) w

  unfoldable pub load_all_hosts : Go W (Loaded H)
  load_all_hosts = do names ← s.list; call (load_hosts names)
