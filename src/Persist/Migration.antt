-- ===== src/Persist/Migration.antt =====
-- Loading configurations of other versions than the current one.
use p2box.Disk.Entries.{
  Node, path_eq, path_eq-append, path_eq_refl, path_eq_symm, FilePath, dir, file, Files, lookup,
}
use p2box.Persist.SaveToFile.{IsFresh}
use p2box.Persist.SaveFine.{IsWritable, save_to_file-Wrote}
use p2box.Disk.Dirs.{longer_apart, lookup-with_dirs_kept}
use p2box.Persist.Loading.{save_fine, config-apart, IsLawful}
use p2box.Base.{
  ◌∙◌, inr, refl, length-append, [], ◌∷◌, ◌==◌, ◌≡◌, String, none, some, arith, ◌<◌, true, ltb,
  false,
}
use p2box.Go.{ok, err, wrap}
use p2box.Provision.{AuthOptions}
use p2box.Host.{nil_pointer}
use p2box.Disk.{TempName}
use p2box.Disk.Cases.{fine_disk}
use p2box.Persist.Stored.{
  StoredHost, Metadata, Codec, current_version, migrate_host, config_from_future,
}
use p2box.Persist.Filestore.{join, load, load_config, host_path, config_path}

module _ (codec : Codec) (temp_name : TempName) (path : FilePath) (name : String) where
  -- A stored machine: its directory, and a configuration that reads as the metadata `m` with
  -- authentication options.
  pub record IsStored (files : Files) (text : String) (m : Metadata) (a : AuthOptions)
      : Type 0 where
    pub at_host : lookup (host_path codec temp_name path name) files ≡ some dir
    pub at_config : lookup (config_path codec temp_name path name) files ≡ some (file text)
    pub metadata : codec.decode_metadata text ≡ some m
    pub auth : m.host_options.auth_options ≡ some a

  -- A configuration of a later version is refused, and the disk stays as it is.
  pub load_future :
      (files : Files) (text : String) (m : Metadata) (a : AuthOptions)
      → IsStored files text m a
      → current_version < m.config_version
      → load codec temp_name path name (fine_disk files)
        ≡ (err (wrap "Error getting migrated host" config_from_future), fine_disk files)
  unfolding load load_config migrate_host
  load_future files text m a stored lt =
      let later : ltb current_version m.config_version ≡ true = ground arith in
      rw (stored.at_host, stored.at_config, stored.metadata, stored.auth, later)

  -- What is left of a host once an older configuration has been "migrated".
  abbrev pub emptied : StoredHost
  emptied = record {
    config_version = current_version;
    driver = none;
    driver_name = "";
    host_options = none;
    name = name;
    raw_driver = none;
  }

  abbrev pub backup_path : FilePath
  backup_path = join (host_path codec temp_name path name) "config.json.bak"

  migrate_host-older :
      {W : Type 0} (text : String) (w : W) (m : Metadata) (a : AuthOptions) (into : StoredHost)
      → codec.decode_metadata text ≡ some m
      → m.host_options.auth_options ≡ some a
      → m.config_version < current_version
      → migrate_host codec into text w
        ≡ (ok (record into { config_version = current_version; raw_driver = none }, true), w)
  unfolding migrate_host
  migrate_host-older text w m a into dm am lt =
      let not_later : ltb current_version m.config_version ≡ false = ground arith in
      let not_current : (m.config_version == current_version) ≡ false = ground arith in
      rw (dm, am, not_later, not_current)

  -- An emptied host cannot be loaded again.
  load_emptied :
      IsLawful codec
      → (files : Files) (text : String) {v : Node} → codec.encode emptied ≡ ok text
      → lookup (host_path codec temp_name path name) files ≡ some v
      → lookup (config_path codec temp_name path name) files ≡ some (file text)
      → load codec temp_name path name (fine_disk files) ≡ (err nil_pointer, fine_disk files)
  unfolding load load_config migrate_host
  load_emptied lawful files text enc at_host at_config =
      rw (at_host, at_config, lawful.metadata emptied text enc)

module _ (codec : Codec) (lawful : IsLawful codec) (temp_name : TempName)
    (fresh : IsFresh temp_name) (path : FilePath) (name : String) where
  abbrev dir_path : FilePath
  dir_path = host_path codec temp_name path name

  abbrev file_path : FilePath
  file_path = config_path codec temp_name path name

  abbrev copy_path : FilePath
  copy_path = backup_path codec temp_name path name

  copy-dir : path_eq copy_path dir_path ≡ false
  copy-dir = path_eq_symm dir_path copy_path (
      longer_apart dir_path copy_path
        (omega (arith, length-append dir_path ("config.json.bak" ∷ []))))

  copy-file : path_eq copy_path file_path ≡ false
  copy-file = path_eq-append dir_path "config.json.bak" "config.json" refl

  -- Loading a configuration of an earlier version keeps its text as a backup, and gives a host
  -- that has its name and nothing else. That host is saved over the configuration, so a second
  -- load of the machine panics.
  pub load_older :
      (files : Files) (text text' : String) (m : Metadata) (a : AuthOptions)
      → IsStored codec temp_name path name files text m a
      → m.config_version < current_version
      → codec.encode (emptied codec temp_name path name) ≡ ok text'
      → IsWritable copy_path files
      → (files' : Files) × (load codec temp_name path name (fine_disk files)
          ≡ (ok (emptied codec temp_name path name), fine_disk files'))
        × (lookup copy_path files' ≡ some (file text))
        × (lookup file_path files' ≡ some (file text'))
        × (load codec temp_name path name (fine_disk files') ≡ (err nil_pointer, fine_disk files'))
  unfolding load load_config
  load_older files text text' m a stored lt enc writable =
      let (files1, saved1, looks1) =
        save_to_file-Wrote temp_name fresh copy_path text files writable in
      let at_dir : lookup dir_path files1 ≡ some dir =
        looks1 dir_path ∙ rw copy-dir stored.at_host in
      let at_file : lookup file_path files1 ≡ some (file text) =
        looks1 file_path ∙ rw copy-file stored.at_config in
      let (files2, (saved2, looks2)) =
        save_fine codec temp_name path fresh (emptied codec temp_name path name) text' files1 enc
          (record { not_blocked = rw at_dir refl; at_config = inr (text, at_file) }) in
      let dir2 : lookup dir_path files2 ≡ some dir =
        looks2 dir_path
        ∙ rw (config-apart codec temp_name path fresh name)
            (lookup-with_dirs_kept [] dir_path dir_path files1 at_dir) in
      let file2 : lookup file_path files2 ≡ some (file text') =
        looks2 file_path ∙ rw (path_eq_refl file_path) in
      let copy2 : lookup copy_path files2 ≡ some (file text) =
        looks2 copy_path
        ∙ rw (path_eq_symm copy_path file_path copy-file) (
            lookup-with_dirs_kept [] dir_path copy_path files1
              (looks1 copy_path ∙ rw (path_eq_refl copy_path))) in
      (
        files2,
        rw (
          stored.at_host,
          stored.at_config,
          migrate_host-older codec temp_name path name text (fine_disk files) m a _ stored.metadata
              stored.auth lt,
          saved1,
          saved2,
        ),
        copy2,
        file2,
        load_emptied codec temp_name path name lawful files2 text' enc dir2 file2,
      )
