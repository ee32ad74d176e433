-- ===== src/Persist/Machines.antt =====
-- What a store of machines promises: it is a map from names to hosts.
use p2box.Base.{Bool, true, false, String, List, [], ◌∷◌, Option, none, some, str_eq, if◌then◌else◌}
use p2box.Go.{host_does_not_exist, Result, ok, err, Go, pure, ◌>>◌}
use p2box.Persist.Hosts.{Store}
use p2box.Persist.Stored.{StoredHost}

abbrev pub Machines : Type 0
Machines = String → Option StoredHost

abbrev pub no_machines : Machines
no_machines name = none

pub data StoreOp : Type 0 where
  saving : StoredHost → StoreOp
  removing : String → StoreOp

abbrev pub put : String → Option StoredHost → Machines → Machines
put name h m n = if str_eq name n then h else m n

-- What the operations make of the map.
abbrev pub after_op : StoreOp → Machines → Machines
after_op (saving h) m = put h.name (some h) m
after_op (removing name) m = put name none m

abbrev pub after_ops : List StoreOp → Machines → Machines
after_ops [] m = m
after_ops (op ∷ ops) m = after_ops ops (after_op op m)

-- What the map answers to the queries. The raw driver of a loaded host is its driver.
abbrev pub is_there : Option StoredHost → Bool
is_there none = false
is_there (some h) = true

abbrev pub loaded : String → Option StoredHost → Result StoredHost
loaded name none = err (host_does_not_exist name)
loaded name (some h) = ok (record h { raw_driver = h.driver })

-- The operations on a store.
module _ {W : Type 0} (s : Store W StoredHost) where
  abbrev pub run_op : StoreOp → Go W Unit
  run_op (saving h) = s.save h
  run_op (removing name) = s.remove name

  abbrev pub run_ops : List StoreOp → Go W Unit
  run_ops [] = pure tt
  run_ops (op ∷ ops) = do run_op op; run_ops ops
