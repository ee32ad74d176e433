-- ===== src/Persist/Filestore.antt =====
-- libmachine/persist/filestore.go: the machines on the disk.
use Prim.Native.Char.{Char, code}
use p2box.Base.{
  ◌||◌, ◌==◌, Bool, true, false, String, List, [], ◌∷◌, ◌++◌, Option, none, some, str_eq,
  if◌then◌else◌,
}
use p2box.Go.{
  wrap, host_does_not_exist, Result, ok, err, Go, pure, lift, ◌>>=◌, ◌>>◌, wrap_with, not_exist,
  os_error,
}
use text.Mathlib.Text.{starts_with}
use p2box.Disk.Entries.{lookup, FilePath, Node, dir, file, Files}
use p2box.Disk.{
  Disk, TempName, stat, is_not_exist, write_file, read_file, remove, rename, remove_all, mkdir_all,
  close, temp_file, deferred, operation, no_trace,
}
use p2box.Persist.Hosts.{Store}
use p2box.Persist.Stored.{StoredHost, Codec, migrate_host}

-- The parts of a name between its slashes.
abbrev pub onto_part : Char → List String → List String
onto_part c [] = String.◌∷◌ c "" ∷ []
onto_part c (x ∷ xs) = String.◌∷◌ c x ∷ xs

abbrev pub parts : String → List String
parts String.[] = "" ∷ []
parts (String.◌∷◌ c s) =
    let rest = parts s in if code c == b'/' then "" ∷ rest else onto_part c rest

abbrev pub has_slash : String → Bool
has_slash String.[] = false
has_slash (String.◌∷◌ c s) = code c == b'/' || has_slash s

abbrev pub parent : FilePath → FilePath
parent [] = []
parent (x ∷ []) = []
parent (x ∷ y ∷ p) = x ∷ parent (y ∷ p)

-- An empty part and "." are dropped, and ".." goes up.
abbrev pub join_part : FilePath → String → FilePath
join_part p name =
    if str_eq name ""
    then p
    else if str_eq name "."
    then p
    else if str_eq name ".."
    then parent p
    else p ++ (name ∷ [])

abbrev pub join_parts : FilePath → List String → FilePath
join_parts p [] = p
join_parts p (x ∷ xs) = join_parts (join_part p x) xs

-- filepath.Join with one more name
abbrev pub join : FilePath → String → FilePath
join p name = join_parts p (parts name)

-- The results that `List` keeps: directories whose name does not begin with a dot.
abbrev pub child_of : FilePath → FilePath → Option String
child_of [] (name ∷ []) = some name
child_of (x ∷ p) (y ∷ k) = if str_eq x y then child_of p k else none
child_of _ _ = none

abbrev pub is_hidden : String → Bool
is_hidden name = starts_with name "."

abbrev pub listed : Option String → Node → List String → List String
listed (some name) dir names = if is_hidden name then names else name ∷ names
listed _ _ names = names

-- The loop of `List` over what `ioutil.ReadDir` gives, in the order in which the entries stand.
pub machine_dirs : FilePath → Files → List String
machine_dirs p [] = []
machine_dirs p ((k, node) ∷ files) = listed (child_of p k) node (machine_dirs p files)

abbrev pub names_at : FilePath → Option Node → Files → Result (List String)
names_at p none files = err not_exist
names_at p (some dir) files = ok (machine_dirs p files)
names_at p (some (file _)) files = err (os_error "not a directory")

-- ioutil.ReadDir of a directory, as the names that the loop keeps
abbrev pub read_machine_dirs : FilePath → Go Disk (List String)
read_machine_dirs p = operation (λ files. (names_at p (lookup p files) files, files)) no_trace

-- The part of `saveToFile` under the deferred removal of the temporary file.
abbrev pub replace_file : String → FilePath → FilePath → Go Disk Unit
replace_file text target temp = do write_file temp text; close; remove target; rename temp target

module _ (temp_name : TempName) where
  -- Any error of the first `Stat` but "does not exist" goes on to the temporary file.
  unfoldable pub save_to_file : String → FilePath → Go Disk Unit
  save_to_file text target d =
      let (node, d') = stat target d in
      let replaced = (do
        temp ← temp_file temp_name (parent target) "config.json.tmp"
        deferred (remove temp) (replace_file text target temp)) in
      if is_not_exist node then write_file target text d' else replaced d'

-- `path` is the store's directory.
module _ (codec : Codec) (temp_name : TempName) (path : FilePath) where
  abbrev pub machines_dir : FilePath
  machines_dir = join path "machines"

  abbrev pub host_path : String → FilePath
  host_path name = join machines_dir name

  abbrev pub config_path : String → FilePath
  config_path name = join (host_path name) "config.json"

  unfoldable pub save : StoredHost → Go Disk Unit
  save h = do
    text ← lift (codec.encode h)
    mkdir_all (host_path h.name)
    save_to_file temp_name text (config_path h.name)

  unfoldable pub remove_machine : String → Go Disk Unit
  remove_machine name = remove_all (host_path name)

  -- A missing directory of machines is an empty one.
  abbrev unless_missing : Result (List String) → Result (List String)
  unless_missing (err not_exist) = ok []
  unless_missing r = r

  unfoldable pub list : Go Disk (List String)
  list d = let (r, d') = read_machine_dirs machines_dir d in (unless_missing r, d')

  abbrev existence : Result Node → Result Bool
  existence (ok _) = ok true
  existence (err not_exist) = ok false
  existence (err e) = err e

  unfoldable pub exists : String → Go Disk Bool
  exists name d = let (r, d') = stat (host_path name) d in (existence r, d')

  -- After a migration the old text goes to a backup, and the new configuration over the old one.
  abbrev keep_migrated : Bool → StoredHost → String → Go Disk Unit
  keep_migrated false h text = pure tt
  keep_migrated true h text = do
    wrap_with (wrap "Error attempting to save backup after migration")
        (save_to_file temp_name text (join (host_path h.name) "config.json.bak"))
    wrap_with (wrap "Error saving config after migration was performed") (save h)

  unfoldable pub load_config : StoredHost → Go Disk StoredHost
  load_config h = do
    text ← read_file (config_path h.name)
    migrated ← wrap_with (wrap "Error getting migrated host") (migrate_host codec h text)
    let named = record (migrated.0) { name = h.name }
    keep_migrated migrated.1 named text
    pure named

  abbrev fresh_host : String → StoredHost
  fresh_host name = record {
    config_version = 0;
    driver = none;
    driver_name = "";
    host_options = none;
    name = name;
    raw_driver = none;
  }

  unfoldable pub load : String → Go Disk StoredHost
  load name d =
      let (node, d') = stat (host_path name) d in
      let loaded = load_config (fresh_host name) in
      if is_not_exist node then (err (host_does_not_exist name), d') else loaded d'

-- `Filestore` is a `Store`.
abbrev pub filestore : Codec → TempName → FilePath → Store Disk StoredHost
filestore codec temp_name path = record {
  exists = exists codec temp_name path;
  list = list codec temp_name path;
  load = load codec temp_name path;
  remove = remove_machine codec temp_name path;
  save = save codec temp_name path;
}
