-- ===== src/Persist/Refinement.antt =====
-- The store on the disk implements the map of machines.
use p2box.Base.{
  false, sym, ◌≡◌, refl, subst, Bool-cases, eq_iff, String, List, [], ◌∷◌, Option, none, some,
  str_eq, inl, inr,
}
use p2box.Disk.Entries.{is_under, erase_tree, lookup-erase_tree, FilePath, dir, file, Files, lookup}
use p2box.Persist.Filestore.{
  filestore, load, exists, remove_machine, host_path, config_path, machines_dir,
}
use p2box.Persist.Loading.{IsLawful, metadata_of, load_fine}
use p2box.Persist.Machines.{
  after_op, after_ops, is_there, loaded, run_op, run_ops, Machines, StoreOp, saving, removing, put,
}
use p2box.Persist.Removal.{is_under_self}
use p2box.Persist.Hosts.{Store}
use p2box.Disk.{Disk, TempName, file_on_way}
use p2box.Disk.Ways.{file_on_way-keeps}
use p2box.Disk.Dirs.{is_under-append}
use p2box.Go.{ok}
use p2box.Disk.Cases.{fine_disk}
use p2box.Persist.Stored.{StoredHost, Codec}
use p2box.Persist.SaveToFile.{IsFresh}
use p2box.Persist.Represents.{IsPlain, IsGood, AllGood, Stands, Represents, host-host, host-config}
use p2box.Persist.Saving.{Stands-same, save-Represents}

module _ (codec : Codec) (temp_name : TempName) (fresh : IsFresh temp_name) (path : FilePath) where
  -- A removal puts no file on the way to the machines.
  removed_way :
      (name : String) (files : Files)
      → file_on_way [] (machines_dir codec temp_name path) files ≡ false
      → file_on_way []
          (machines_dir codec temp_name path)
          (erase_tree (host_path codec temp_name path name) files)
        ≡ false
  removed_way name files way =
      let at = host_path codec temp_name path name in
      file_on_way-keeps [] (machines_dir codec temp_name path) files (erase_tree at files)
        (λ k le h. elim (Bool-cases (is_under at k)) [
          | inl e ↦ rw (lookup-erase_tree at k files, e) refl
          | inr e ↦ rw (lookup-erase_tree at k files, e) h
        ])
        way

  remove-Represents :
      (name : String) (m : Machines) (files : Files)
      → IsPlain name
      → Represents codec temp_name path m files
      → (files' : Files) × (remove_machine codec temp_name path name (fine_disk files)
          ≡ (ok tt, fine_disk files'))
        × Represents codec temp_name path (put name none m) files'
  unfolding remove_machine
  remove-Represents name m files pn r =
      let at = host_path codec temp_name path name in
      (
        erase_tree at files,
        refl,
        (
          removed_way name files r.0,
          λ n p. elim (Bool-cases (str_eq name n)) [
            | inl e ↦ rw e (
                subst (λ k. Stands codec temp_name path k (erase_tree at files) none)
                  ((eq_iff name n).0 e)
                  (
                    rw (lookup-erase_tree at at files, is_under_self at),
                    rw (
                      lookup-erase_tree at (config_path codec temp_name path name) files,
                      is_under-append at ("config.json" ∷ []),
                    ),
                  ))
            | inr e ↦ rw e (
                Stands-same codec temp_name fresh path n files (erase_tree at files) (m n)
                  (rw (
                    lookup-erase_tree at (host_path codec temp_name path n) files,
                    host-host codec temp_name path name n pn p e,
                  ))
                  (rw (
                    lookup-erase_tree at (config_path codec temp_name path n) files,
                    host-config codec temp_name path name n pn p e,
                  ))
                  (r.1 n p))
          ],
        ),
      )

  abbrev the_store : Store Disk StoredHost
  the_store = filestore codec temp_name path

  run_op-Represents :
      (op : StoreOp) (m : Machines) (files : Files)
      → IsGood codec op
      → Represents codec temp_name path m files
      → (files' : Files) × (run_op the_store op (fine_disk files) ≡ (ok tt, fine_disk files'))
        × Represents codec temp_name path (after_op op m) files'
  run_op-Represents (saving h) m files g r =
      save-Represents codec temp_name fresh path h m files g r
  run_op-Represents (removing name) m files g r = remove-Represents name m files g r

  run_ops-Represents :
      (ops : List StoreOp) (m : Machines) (files : Files)
      → AllGood codec ops
      → Represents codec temp_name path m files
      → (files' : Files) × (run_ops the_store ops (fine_disk files) ≡ (ok tt, fine_disk files'))
        × Represents codec temp_name path (after_ops ops m) files'
  run_ops-Represents [] m files g r = (files, refl, r)
  run_ops-Represents (op ∷ ops) m files (g, gs) r =
      let (files1, ran, r1) = run_op-Represents op m files g r in
      let (files2, rest, r2) = run_ops-Represents ops (after_op op m) files1 gs r1 in
      (files2, rw ran rest, r2)

  exists-Stands :
      (n : String) (files : Files) (e : Option StoredHost)
      → Stands codec temp_name path n files e
      → exists codec temp_name path n (fine_disk files) ≡ (ok (is_there e), fine_disk files)
  unfolding exists
  exists-Stands n files none (h, c) = rw h
  exists-Stands n files (some o) (s, q, h, c) = rw h

module _ (codec : Codec) (lawful : IsLawful codec) (temp_name : TempName)
    (fresh : IsFresh temp_name) (path : FilePath) where
  load-Stands :
      (n : String) (files : Files) (e : Option StoredHost)
      → Stands codec temp_name path n files e
      → load codec temp_name path n (fine_disk files) ≡ (loaded n e, fine_disk files)
  unfolding load
  load-Stands n files none (h, c) = rw h
  load-Stands n files (some o) (s, q, h, c) =
      let at_host =
        subst (λ k. lookup (host_path codec temp_name path k) files ≡ some dir) (sym q) h in
      let at_config =
        subst (λ k. lookup (config_path codec temp_name path k) files ≡ some (file s.text)) (sym q)
          c in
      subst
        (λ k.
          load codec temp_name path k (fine_disk files)
          ≡ (ok (record o { raw_driver = o.driver }), fine_disk files))
        q
        (load_fine codec temp_name path o o s.text files dir (metadata_of o) s.auth at_host
          at_config (lawful.metadata o s.text s.encodes) s.version s.has_auth
          (λ into. lawful.host o into s.text s.encodes))

  -- Saving storable hosts and removing machines with plain names, in any order, on a disk without
  -- faults that represents a map of machines, succeeds and leaves a disk that represents the map
  -- after these operations. There `exists` tells of every plain name whether the map has it, and
  -- `load` gives the host of the map with its driver as raw driver, or the error that there is no
  -- such host; neither changes the disk.
  pub filestore-Represents :
      (ops : List StoreOp) (m : Machines) (files : Files)
      → AllGood codec ops
      → Represents codec temp_name path m files
      → (files' : Files) × (run_ops (filestore codec temp_name path) ops (fine_disk files)
          ≡ (ok tt, fine_disk files'))
        × Represents codec temp_name path (after_ops ops m) files'
        × ((n : String)
            → IsPlain n
            → (exists codec temp_name path n (fine_disk files')
                ≡ (ok (is_there (after_ops ops m n)), fine_disk files'))
              × (load codec temp_name path n (fine_disk files')
                  ≡ (loaded n (after_ops ops m n), fine_disk files')))
  filestore-Represents ops m files g r =
      let (files', ran, r') = run_ops-Represents codec temp_name fresh path ops m files g r in
      (
        files',
        ran,
        r',
        λ n p. (
          exists-Stands codec temp_name fresh path n files' (after_ops ops m n) (r'.1 n p),
          load-Stands n files' (after_ops ops m n) (r'.1 n p),
        ),
      )
