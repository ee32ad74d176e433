-- ===== src/Tests/Store.antt =====
-- Saving and loading at concrete disks.
use p2box.Persist.Refinement.{filestore-Represents}
use p2box.Persist.Represents.{IsPlain, Represents}
use p2box.Persist.Machines.{
  StoreOp, saving, removing, after_ops, no_machines, is_there, loaded, run_ops,
}
use p2box.Persist.Filestore.{join, filestore, exists, save_to_file, save, load}
use p2box.Base.{
  List, ◌==◌, ◌≡◌, refl, inl, String, none, some, [], ◌∷◌, if◌then◌else◌, arith, false,
}
use p2box.Tests.Samples.{
  encode-box, encode-hollow, temp_name, temp_name-IsFresh, codec, codec-IsLawful, auth, box,
  store_path, old_metadata,
}
use p2box.Go.{ok, err}
use p2box.Disk.Entries.{FilePath, Node, dir, file, Files, path_eq, lookup}
use p2box.Persist.Migration.{load_older, emptied, backup_path}
use p2box.Host.{nil_pointer}
use p2box.Disk.{file_on_way, Disk, fine, torn, io_error}
use p2box.Disk.Cases.{fine_disk}
use p2box.Persist.SaveToFile.{Replaced, save_to_file-Replaced}
use p2box.Persist.SaveFine.{sixth_breaks, save_to_file_loses}
use p2box.Persist.Loading.{load-save}

abbrev config : FilePath
config = "home" ∷ "machines" ∷ "box" ∷ "config.json" ∷ []

-- The store with one machine, whose configuration is the text.
abbrev stored : String → Files
stored text = ("home" ∷ "machines" ∷ "box" ∷ [], dir) ∷ (config, file text) ∷ []

abbrev torn_write : Disk
torn_write = record { files = stored "old"; faults = λ n. if n == 2 then torn "half" else fine }

save_to_file-Replaced_example :
    Replaced config "old" "new" (save_to_file temp_name "new" config torn_write)
unfolding lookup
save_to_file-Replaced_example =
    save_to_file-Replaced temp_name temp_name-IsFresh config "old" "new" torn_write refl

save_to_file_loses_example :
    ((save_to_file temp_name "new" config (sixth_breaks (stored "old"))).0 ≡ err io_error)
    × ((p : FilePath)
        → lookup p (save_to_file temp_name "new" config (sixth_breaks (stored "old"))).1.files
          ≡ (if path_eq config p then none else lookup p (stored "old")))
unfolding lookup
save_to_file_loses_example =
    save_to_file_loses temp_name temp_name-IsFresh config "old" "new" (stored "old") refl

load-save_example :
    (files' : Files) × (save codec temp_name store_path box (fine_disk [])
      ≡ (ok tt, fine_disk files'))
    × (load codec temp_name store_path "box" (fine_disk files')
        ≡ (ok (record box { raw_driver = some "{}" }), fine_disk files'))
    × ((p : FilePath) (v : Node)
        → path_eq config p ≡ false
        → lookup p [] ≡ some v
        → lookup p files' ≡ some v)
unfolding lookup file_on_way
load-save_example =
    load-save codec codec-IsLawful temp_name temp_name-IsFresh store_path box "box" [] auth
      encode-box refl refl (record { not_blocked = refl; at_config = inl refl })

load_older_example :
    (files' : Files) × (load codec temp_name store_path "box" (fine_disk (stored "old"))
      ≡ (ok (emptied codec temp_name store_path "box"), fine_disk files'))
    × (lookup (backup_path codec temp_name store_path "box") files' ≡ some (file "old"))
    × (lookup config files' ≡ some (file "hollow"))
    × (load codec temp_name store_path "box" (fine_disk files')
        ≡ (err nil_pointer, fine_disk files'))
unfolding lookup
load_older_example =
    load_older codec codec-IsLawful temp_name temp_name-IsFresh store_path "box" (stored "old")
      "old" "hollow" old_metadata auth
      (record { at_host = refl; at_config = refl; metadata = refl; auth = refl }) (omega arith)
      encode-hollow (inl refl)

-- Saving one machine, and removing another that is not there.
abbrev changes : List StoreOp
changes = saving box ∷ removing "other" ∷ []

filestore-Represents_example :
    (files' : Files) × (run_ops (filestore codec temp_name store_path) changes (fine_disk [])
      ≡ (ok tt, fine_disk files'))
    × Represents codec temp_name store_path (after_ops changes no_machines) files'
    × ((n : String)
        → IsPlain n
        → (exists codec temp_name store_path n (fine_disk files')
            ≡ (ok (is_there (after_ops changes no_machines n)), fine_disk files'))
          × (load codec temp_name store_path n (fine_disk files')
              ≡ (loaded n (after_ops changes no_machines n), fine_disk files')))
unfolding lookup file_on_way
filestore-Represents_example =
    filestore-Represents codec codec-IsLawful temp_name temp_name-IsFresh store_path changes
      no_machines []
      (
        record {
          plain = record { not_empty = refl; not_here = refl; not_up = refl; no_slash = refl };
          version = refl;
          auth = auth;
          has_auth = refl;
          text = "box";
          encodes = encode-box;
        },
        (record { not_empty = refl; not_here = refl; not_up = refl; no_slash = refl }, tt),
      )
      (refl, λ n p. (refl, refl))

-- filepath.Join cleans what it joins.
join_up : join ("home" ∷ []) "a/../b//c" ≡ "home" ∷ "b" ∷ "c" ∷ []
join_up = refl
