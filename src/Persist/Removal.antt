-- ===== src/Persist/Removal.antt =====
-- What the removal of a machine from the store leaves.
use p2box.Base.{◌≡◌, refl, eq_iff, String, none, false, [], ◌∷◌, true}
use p2box.Go.{ok, err, host_does_not_exist}
use p2box.Disk.{TempName}
use p2box.Disk.Cases.{fine_disk}
use p2box.Disk.Entries.{FilePath, Files, is_under, lookup, erase_tree, lookup-erase_tree}
use p2box.Persist.Stored.{Codec}
use p2box.Persist.Filestore.{remove_machine, exists, load, host_path}

pub is_under_self : (p : FilePath) → is_under p p ≡ true
is_under_self [] = refl
is_under_self (x ∷ p) = rw ((eq_iff x x).1 refl) (is_under_self p)

module _ (codec : Codec) (temp_name : TempName) (path : FilePath) (name : String) where
  -- Where no operation of the disk fails, the removal of a machine succeeds, whether the machine
  -- was there or not. After it the machine does not exist and cannot be loaded, and every file
  -- outside of its directory is as it was.
  pub remove_machine-erases :
      (files : Files)
      → (files' : Files) × (remove_machine codec temp_name path name (fine_disk files)
          ≡ (ok tt, fine_disk files'))
        × (exists codec temp_name path name (fine_disk files') ≡ (ok false, fine_disk files'))
        × (load codec temp_name path name (fine_disk files')
            ≡ (err (host_does_not_exist name), fine_disk files'))
        × ((p : FilePath)
            → is_under (host_path codec temp_name path name) p ≡ false
            → lookup p files' ≡ lookup p files)
  unfolding remove_machine exists load
  remove_machine-erases files =
      let at = host_path codec temp_name path name in
      let gone : lookup at (erase_tree at files) ≡ none =
        rw (lookup-erase_tree at at files, is_under_self at) in
      (erase_tree at files, refl, rw gone, rw gone, (λ p h. rw (lookup-erase_tree at p files, h)))
