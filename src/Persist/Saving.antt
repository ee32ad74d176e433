-- ===== src/Persist/Saving.antt =====
-- Saving a host keeps what the disk represents of the others.
use p2box.Disk.Entries.{path_eq_refl, path_eq_symm, FilePath, dir, Files, path_eq, lookup, file}
use p2box.Base.{
  sym, if◌then◌else◌, ◌≡◌, refl, ◌∙◌, subst, Bool-cases, false, eq_iff, String, [], Option, none,
  some, str_eq, inl, inr, arith,
}
use p2box.Go.{ok}
use p2box.Disk.{TempName, with_dirs, is_file, file_on_way}
use p2box.Disk.Ways.{file_on_way-keeps, file_on_way-append, is_file-with_dirs}
use p2box.Disk.Cases.{fine_disk}
use p2box.Disk.Dirs.{
  longer_apart, lookup-with_dirs_kept, lookup-with_dirs_longer, lookup-with_dirs_other,
  with_dirs_made,
}
use p2box.Persist.Stored.{StoredHost, Codec}
use p2box.Persist.Filestore.{host_path, config_path, save, machines_dir}
use p2box.Persist.SaveToFile.{IsFresh}
use p2box.Persist.Loading.{IsFree, save_fine}
use p2box.Persist.Machines.{Machines, put}
use p2box.Persist.Represents.{
  host_at-plain, machines-config, IsPlain, IsStorable, Stands, Represents, host-host, config-longer,
  config-config, flipped,
}

module _ (codec : Codec) (temp_name : TempName) (fresh : IsFresh temp_name) (path : FilePath) where
  abbrev made : String → Files → Files
  made n files = with_dirs [] (host_path codec temp_name path n) files

  -- Directories for one host leave the entry of another as it was.
  Stands-made :
      (a b : String) (files : Files)
      → IsPlain a
      → IsPlain b
      → str_eq a b ≡ false
      → (lookup (host_path codec temp_name path b) (made a files)
          ≡ lookup (host_path codec temp_name path b) files)
        × (lookup (config_path codec temp_name path b) (made a files)
            ≡ lookup (config_path codec temp_name path b) files)
  Stands-made a b files pa pb h = (
    lookup-with_dirs_other [] (host_path codec temp_name path a) (host_path codec temp_name path b)
        files (host-host codec temp_name path b a pb pa (flipped a b h)),
    lookup-with_dirs_longer [] (host_path codec temp_name path a)
        (config_path codec temp_name path b) files
        (omega (arith, config-longer codec temp_name path a b pa pb)),
  )

  -- With no file at a host's directory, there is none on the way to it.
  host_way :
      (n : String) (files : Files)
      → IsPlain n
      → file_on_way [] (machines_dir codec temp_name path) files ≡ false
      → is_file (lookup (host_path codec temp_name path n) files) ≡ false
      → file_on_way [] (host_path codec temp_name path n) files ≡ false
  host_way n files p way here =
      let at = host_at-plain codec temp_name path n p in
      subst (λ q. file_on_way [] q files ≡ false) (sym at)
        (file_on_way-append [] (machines_dir codec temp_name path) n files way
          (subst (λ q. is_file (lookup q files) ≡ false) at here))

  -- Saving a host puts no file on the way to the machines.
  saved_way :
      (n text : String) (files files' : Files)
      → IsPlain n
      → ((p : FilePath)
          → lookup p files' ≡ (
              if path_eq (config_path codec temp_name path n) p
              then some (file text)
              else lookup p (made n files)))
      → file_on_way [] (machines_dir codec temp_name path) files ≡ false
      → file_on_way [] (machines_dir codec temp_name path) files' ≡ false
  saved_way n text files files' p looks way =
      let dirs = machines_dir codec temp_name path in
      let config = config_path codec temp_name path n in
      file_on_way-keeps [] dirs files files'
        (λ k le h.
          let other =
            path_eq_symm k config
              (longer_apart k config (omega (arith, machines-config codec temp_name path n p))) in
          rw (looks k, other) (is_file-with_dirs [] (host_path codec temp_name path n) k files h))
        way

  -- A host that stands or is missing may be saved.
  Stands-IsFree :
      (n : String) (files : Files) (e : Option StoredHost)
      → IsPlain n
      → file_on_way [] (machines_dir codec temp_name path) files ≡ false
      → Stands codec temp_name path n files e
      → IsFree codec temp_name path n files
  Stands-IsFree n files none p way (h, c) = record {
    not_blocked = rw h (host_way n files p way (rw h refl));
    at_config = inl c;
  }
  Stands-IsFree n files (some o) p way (s, q, h, c) = record {
    not_blocked = rw h refl;
    at_config = inr (s.text, c);
  }

  Stands-dir :
      (n : String) (files : Files) (e : Option StoredHost)
      → Stands codec temp_name path n files e
      → lookup (host_path codec temp_name path n) (made n files) ≡ some dir
  Stands-dir n files none (h, c) = with_dirs_made [] (host_path codec temp_name path n) files h
  Stands-dir n files (some o) (s, q, h, c) =
      lookup-with_dirs_kept [] (host_path codec temp_name path n) (host_path codec temp_name path n)
        files h

  -- The entry depends on what the two paths have.
  pub Stands-same :
      (n : String) (files files' : Files) (e : Option StoredHost)
      → lookup (host_path codec temp_name path n) files'
        ≡ lookup (host_path codec temp_name path n) files
      → lookup (config_path codec temp_name path n) files'
        ≡ lookup (config_path codec temp_name path n) files
      → Stands codec temp_name path n files e
      → Stands codec temp_name path n files' e
  Stands-same n files files' none p q (h, c) = (p ∙ h, q ∙ c)
  Stands-same n files files' (some o) p q (s, k, h, c) = (s, k, p ∙ h, q ∙ c)

  config-host :
      (a b : String)
      → IsPlain a
      → IsPlain b
      → path_eq (config_path codec temp_name path a) (host_path codec temp_name path b) ≡ false
  config-host a b pa pb =
      path_eq_symm (host_path codec temp_name path b) (config_path codec temp_name path a) (
        longer_apart (host_path codec temp_name path b) (config_path codec temp_name path a)
          (config-longer codec temp_name path b a pb pa))

  pub save-Represents :
      (h : StoredHost) (m : Machines) (files : Files)
      → IsStorable codec h
      → Represents codec temp_name path m files
      → (files' : Files) × (save codec temp_name path h (fine_disk files)
          ≡ (ok tt, fine_disk files'))
        × Represents codec temp_name path (put h.name (some h) m) files'
  save-Represents h m files s r =
      let before = r.1 h.name s.plain in
      let (files', (saved, looks)) =
        save_fine codec temp_name path fresh h s.text files s.encodes
          (Stands-IsFree h.name files (m h.name) s.plain r.0 before) in
      let at_host =
        looks (host_path codec temp_name path h.name)
        ∙ rw (config-host h.name h.name s.plain s.plain)
            (Stands-dir h.name files (m h.name) before) in
      let at_config =
        looks (config_path codec temp_name path h.name)
        ∙ rw (path_eq_refl (config_path codec temp_name path h.name)) in
      (
        files',
        saved,
        (
          saved_way h.name s.text files files' s.plain looks r.0,
          λ n p. elim (Bool-cases (str_eq h.name n)) [
            | inl e ↦ rw e (
                subst (λ k. Stands codec temp_name path k files' (some h)) ((eq_iff h.name n).0 e)
                  (s, refl, at_host, at_config))
            | inr e ↦
                let (host_kept, config_kept) = Stands-made h.name n files s.plain p e in
                rw e (
                  Stands-same n files files' (m n)
                    (looks (host_path codec temp_name path n)
                      ∙ rw (config-host h.name n s.plain p) host_kept)
                    (looks (config_path codec temp_name path n)
                      ∙ rw (config-config codec temp_name path h.name n s.plain p e) config_kept)
                    (r.1 n p))
          ],
        ),
      )
