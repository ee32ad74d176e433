-- ===== src/Persist/SaveFine.antt =====
-- Saving a file on a disk on which nothing fails.
use p2box.Disk.{fine, broken, io_error, Disk, TempName}
use p2box.Go.{err, Result, ok}
use p2box.Base.{◌==◌, Option, false, ◌≡◌, ◌⊎◌, inl, inr, String, none, some, arith, if◌then◌else◌}
use p2box.Disk.Entries.{
  Node, FilePath, file, Files, insert, erase, lookup-insert_self, lookup-erase_self, path_eq_symm,
  path_eq, path_eq_iff, lookup, lookup-insert, lookup-erase,
}
use p2box.Disk.Cases.{fine_disk}
use p2box.Persist.Filestore.{save_to_file, replace_file, parent}
use p2box.Persist.SaveToFile.{IsFresh, temp_apart}

-- The call succeeds on a disk without faults. Afterwards the target has the text, and every other
-- path what it had.
abbrev pub Wrote : FilePath → String → Files → Result (Unit {0}) × Disk → Type 0
Wrote target text files outcome =
    (files' : Files) × (outcome ≡ (ok tt, fine_disk files'))
    × ((p : FilePath)
        → lookup p files' ≡ (if path_eq target p then some (file text) else lookup p files))

-- A path that is free, or that holds a file.
abbrev pub IsWritable : FilePath → Files → Type 0
IsWritable target files =
    (lookup target files ≡ none) ⊎ ((old : String) × (lookup target files ≡ some (file old)))

module _ (target temp : FilePath) (text : String) (files : Files) where
  abbrev staged : Files
  staged = insert temp (file text) (insert temp (file "") files)

  abbrev swapped : Files
  swapped = insert target (file text) (erase temp (erase target staged))

module _ (target temp : FilePath) (text : String) (files : Files)
    (apart : path_eq temp target ≡ false) where
  target-staged :
      {v : Option Node}
      → lookup target files ≡ v
      → lookup target (staged target temp text files) ≡ v
  target-staged o = rw (lookup-insert, apart, lookup-insert, apart) o

  temp-staged : lookup temp (erase target (staged target temp text files)) ≡ some (file text)
  temp-staged =
      rw (lookup-erase, path_eq_symm temp target apart) (lookup-insert_self temp (file text) _)

  replace_file_fine :
      (old : String)
      → lookup target files ≡ some (file old)
      → replace_file text target temp (fine_disk (insert temp (file "") files))
        ≡ (ok tt, fine_disk (swapped target temp text files))
  replace_file_fine old o = rw (target-staged o, temp-staged)

  lookup-swapped_temp : lookup temp (swapped target temp text files) ≡ none
  lookup-swapped_temp =
      rw (lookup-insert, path_eq_symm temp target apart) (lookup-erase_self temp _)

  lookup-swapped :
      (p : FilePath)
      → lookup temp files ≡ none
      → lookup p (swapped target temp text files)
        ≡ (if path_eq target p then some (file text) else lookup p files)
  lookup-swapped p n = simp (lookup-insert, lookup-erase) (ground (arith, path_eq_iff temp p))

module _ (temp_name : TempName) (fresh : IsFresh temp_name) where
  -- With no fault a file is saved, whether it was there or not, and every other path has what it
  -- had: the temporary file is gone.
  pub save_to_file-Wrote :
      (target : FilePath) (text : String) (files : Files)
      → IsWritable target files
      → Wrote target text files (save_to_file temp_name text target (fine_disk files))
  unfolding save_to_file
  save_to_file-Wrote target text files (inl n) =
      (insert target (file text) files, rw n, λ p. lookup-insert target p (file text) files)
  save_to_file-Wrote target text files (inr (old, o)) =
      let temp = temp_name (parent target) "config.json.tmp" files in
      let apart = temp_apart temp_name fresh (parent target) "config.json.tmp" target files o in
      (
        swapped target temp text files,
        rw (
          o,
          replace_file_fine target temp text files apart old o,
          lookup-swapped_temp target temp text files apart,
        ),
        λ p.
            lookup-swapped target temp text files apart p
              (fresh (parent target) "config.json.tmp" files),
      )

-- A disk on which everything works but the sixth operation to come.
abbrev pub sixth_breaks : Files → Disk
sixth_breaks files = record { files = files; faults = λ n. if n == 5 then broken else fine }

module _ (temp_name : TempName) (fresh : IsFresh temp_name) where
  -- If all goes well up to the rename and the rename fails, the target is gone, and so is the
  -- temporary file with the new text: every other path has what it had before the call.
  pub save_to_file_loses :
      (target : FilePath) (old text : String) (files : Files)
      → lookup target files ≡ some (file old)
      → ((save_to_file temp_name text target (sixth_breaks files)).0 ≡ err io_error)
        × ((p : FilePath)
            → lookup p (save_to_file temp_name text target (sixth_breaks files)).1.files
              ≡ (if path_eq target p then none else lookup p files))
  unfolding save_to_file
  save_to_file_loses target old text files o =
      let temp = temp_name (parent target) "config.json.tmp" files in
      let apart = temp_apart temp_name fresh (parent target) "config.json.tmp" target files o in
      let t = temp-staged target temp text files apart in
      (
        rw (o, target-staged target temp text files apart o),
        λ p.
            rw (o, target-staged target temp text files apart o, t)
              (simp (lookup-erase, lookup-insert)
                (ground
                  (arith, path_eq_iff temp p, fresh (parent target) "config.json.tmp" files))),
      )
