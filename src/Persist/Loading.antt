-- ===== src/Persist/Loading.antt =====
-- Saving a host and loading it again, on a disk where nothing fails.
use p2box.Disk.Dirs.{longer_apart, lookup-with_dirs_kept, lookup-with_dirs_longer, with_dirs_found}
use p2box.Disk.Entries.{path_eq_symm, path_eq_refl, FilePath, Node, file, Files, path_eq, lookup}
use p2box.Persist.Filestore.{save_to_file, save, load, load_config, host_path, config_path}
use p2box.Base.{
  ◌∙◌, if◌then◌else◌, length-append, ◌≡◌, String, none, some, arith, false, [], ◌∷◌, Option,
}
use p2box.Go.{ok}
use p2box.Provision.{AuthOptions}
use p2box.Host.{Options}
use p2box.Disk.{TempName, with_dirs, is_blocked}
use p2box.Disk.Cases.{fine_disk}
use p2box.Persist.Stored.{StoredHost, Metadata, Codec, zero_options, current_version, migrate_host}
use p2box.Persist.SaveToFile.{IsFresh}
use p2box.Persist.SaveFine.{IsWritable, save_to_file-Wrote}

abbrev pub or_zero : Option Options → Options
or_zero none = zero_options
or_zero (some o) = o

-- What a host's text shows of it when it is read as metadata.
abbrev pub metadata_of : StoredHost → Metadata
metadata_of h = record {
  config_version = h.config_version;
  driver_name = h.driver_name;
  host_options = or_zero h.host_options;
}

-- `json.Unmarshal` reads what `json.MarshalIndent` wrote; the field `RawDriver` is not written.
pub record IsLawful (codec : Codec) : Type 0 where
  pub metadata :
      (h : StoredHost) (text : String)
      → codec.encode h ≡ ok text
      → codec.decode_metadata text ≡ some (metadata_of h)
  pub host :
      (h into : StoredHost) (text : String)
      → codec.encode h ≡ ok text
      → codec.decode_host text into ≡ some (record h { raw_driver = into.raw_driver })

module _ (codec : Codec) (temp_name : TempName) (path : FilePath) where
  -- Where a host of that name is to be saved, nothing stands in the way: no file at its directory
  -- or above, and no directory at its configuration.
  pub record IsFree (name : String) (files : Files) : Type 0 where
    pub not_blocked : is_blocked (host_path codec temp_name path name) files ≡ false
    pub at_config : IsWritable (config_path codec temp_name path name) files

module _ (codec : Codec) (temp_name : TempName) (path : FilePath) (fresh : IsFresh temp_name) where
  abbrev pub host_at : String → FilePath
  host_at = host_path codec temp_name path

  abbrev pub config_at : String → FilePath
  config_at = config_path codec temp_name path

  abbrev pub made_dirs : String → Files → Files
  made_dirs name files = with_dirs [] (host_at name) files

  config-made_dirs :
      (name : String) (files : Files)
      → lookup (config_at name) (made_dirs name files) ≡ lookup (config_at name) files
  config-made_dirs name files =
      lookup-with_dirs_longer [] (host_at name) (config_at name) files
        (omega (arith, length-append (host_at name) ("config.json" ∷ [])))

  save-made_dirs :
      (h : StoredHost) (text : String) (files : Files)
      → codec.encode h ≡ ok text
      → IsFree codec temp_name path h.name files
      → save codec temp_name path h (fine_disk files)
        ≡ save_to_file temp_name text (config_at h.name) (fine_disk (made_dirs h.name files))
  unfolding save
  save-made_dirs h text files enc free = rw (enc, free.not_blocked)

  pub host-made_dirs :
      (h : StoredHost) (files : Files)
      → (v : Node) × (lookup (host_at h.name) (made_dirs h.name files) ≡ some v)
  host-made_dirs h files = with_dirs_found [] (host_at h.name) files

  pub config-apart : (name : String) → path_eq (config_at name) (host_at name) ≡ false
  config-apart name = path_eq_symm (host_at name) (config_at name) (
      longer_apart (host_at name) (config_at name)
        (omega (arith, length-append (host_at name) ("config.json" ∷ []))))

  -- The outcome of saving a host as `text`.
  abbrev pub Saved : StoredHost → String → Files → Files → Type 0
  Saved h text files files' =
      (save codec temp_name path h (fine_disk files) ≡ (ok tt, fine_disk files'))
      × ((p : FilePath)
          → lookup p files' ≡ (
              if path_eq (config_at h.name) p
              then some (file text)
              else lookup p (made_dirs h.name files)))

  pub save_fine :
      (h : StoredHost) (text : String) (files : Files)
      → codec.encode h ≡ ok text
      → IsFree codec temp_name path h.name files
      → (files' : Files) × Saved h text files files'
  save_fine h text files enc free =
      let (files', saved, looks) =
        save_to_file-Wrote temp_name fresh (config_at h.name) text (made_dirs h.name files)
          (rw (config-made_dirs h.name files) free.at_config) in
      (files', (save-made_dirs h text files enc free ∙ saved, looks))

migrate_host-current :
    {W : Type 0} (codec : Codec) (into host : StoredHost) (text : String) (w : W) (m : Metadata)
    (a : AuthOptions)
    → codec.decode_metadata text ≡ some m
    → m.config_version ≡ current_version
    → m.host_options.auth_options ≡ some a
    → codec.decode_host text into ≡ some host
    → migrate_host codec into text w ≡ (ok (record host { raw_driver = host.driver }, false), w)
unfolding migrate_host
migrate_host-current codec into host text w m a dm v am dh = rw (dm, am, v, dh)

module _ (codec : Codec) (temp_name : TempName) (path : FilePath) where
  pub load_fine :
      (h host : StoredHost) (text : String) (files : Files) (node : Node) (m : Metadata)
      (a : AuthOptions)
      → lookup (host_path codec temp_name path h.name) files ≡ some node
      → lookup (config_path codec temp_name path h.name) files ≡ some (file text)
      → codec.decode_metadata text ≡ some m
      → m.config_version ≡ current_version
      → m.host_options.auth_options ≡ some a
      → ((into : StoredHost)
          → codec.decode_host text into ≡ some (record host { raw_driver = into.raw_driver }))
      → load codec temp_name path h.name (fine_disk files)
        ≡ (ok (record host { raw_driver = host.driver; name = h.name }), fine_disk files)
  unfolding load load_config
  load_fine h host text files node m a at_host at_config dm v am dh =
      rw (
        at_host,
        at_config,
        migrate_host-current codec _ _ text (fine_disk files) m a dm v am (dh _),
      )

module _ (codec : Codec) (lawful : IsLawful codec) (temp_name : TempName)
    (fresh : IsFresh temp_name) (path : FilePath) where
  -- On a disk without faults, a host of the current version with authentication options is saved,
  -- and loading its name then gives the host back, its driver also as raw driver. Loading changes
  -- nothing, and every file that was there and is not the configuration of this host is still
  -- what it was. The condition is that no file stands where the directory of the host is to be, or
  -- above, and that its configuration is missing or a file.
  pub load-save :
      (h : StoredHost) (text : String) (files : Files) (a : AuthOptions)
      → codec.encode h ≡ ok text
      → h.config_version ≡ current_version
      → (or_zero h.host_options).auth_options ≡ some a
      → IsFree codec temp_name path h.name files
      → (files' : Files) × (save codec temp_name path h (fine_disk files)
          ≡ (ok tt, fine_disk files'))
        × (load codec temp_name path h.name (fine_disk files')
            ≡ (ok (record h { raw_driver = h.driver }), fine_disk files'))
        × ((p : FilePath) (v : Node)
            → path_eq (config_path codec temp_name path h.name) p ≡ false
            → lookup p files ≡ some v
            → lookup p files' ≡ some v)
  load-save h text files a enc v am free =
      let (files', (saved, looks)) = save_fine codec temp_name path fresh h text files enc free in
      let (node, found) = host-made_dirs codec temp_name path fresh h files in
      let at_host =
        looks (host_path codec temp_name path h.name)
        ∙ rw (config-apart codec temp_name path fresh h.name) found in
      let at_config =
        looks (config_path codec temp_name path h.name)
        ∙ rw (path_eq_refl (config_path codec temp_name path h.name)) in
      (
        files',
        saved,
        load_fine codec temp_name path h h text files' node (metadata_of h) a at_host at_config
            (lawful.metadata h text enc) v am (λ into. lawful.host h into text enc),
        λ p u other e. looks p ∙ rw other (lookup-with_dirs_kept [] _ p files e),
      )
