-- ===== src/Persist/SaveToFile.antt =====
-- What replacing a file leaves behind when an operation on the way fails.
use p2box.Disk.Entries.{
  path_eq_iff, lookup-erase_self, Files, path_eq_symm, erase, insert, lookup-insert_self, Node,
  FilePath, file, path_eq, lookup, lookup-insert, lookup-erase,
}
use p2box.Go.{◌>>=◌, ◌>>◌, Error, Result, ok, err}
use p2box.Base.{
  ap, Bool-cases, ◌∙◌, ◌≡◌, ◌⊎◌, inl, inr, false, String, Option, none, some, refl, Option-cases,
}
use p2box.Persist.Filestore.{parent, save_to_file, replace_file}
use p2box.Disk.{
  temp_file, found, io_error, close, Disk, TempName, remove, rename, removed, renamed, deferred,
}
use p2box.Disk.Cases.{operation-cases, write_file-cases, left}

-- What stands at a path of the disk.
abbrev pub at : FilePath → Disk → Option Node
at p d = lookup p d.files

-- The outcome of replacing `old` by `text`: success with the new text in place, or an error with
-- the old text in place or no file at all.
abbrev pub Replaced : FilePath → String → String → Result (Unit {0}) × Disk → Type 0
Replaced target old text (r, d) =
    ((r ≡ ok tt) × (at target d ≡ some (file text)))
    ⊎ ((e : Error) × (r ≡ err e) × ((at target d ≡ some (file old)) ⊎ (at target d ≡ none)))

module _ (target temp : FilePath) (old text : String) (apart : path_eq temp target ≡ false) where
  -- Removing the temporary file, carried out or not, leaves the target alone.
  at-remove_temp : (d : Disk) → at target (remove temp d).1 ≡ at target d
  at-remove_temp d = elim (operation-cases (λ files. removed temp (lookup temp files) files) d) [
    | inl e ↦ rw e (elim (Option-cases (lookup temp d.files)) [
      | inl n ↦ rw n
      | inr (v, n) ↦ rw (n, lookup-erase, apart)
    ])
    | inr e ↦ rw e
  ]

  rename-Replaced :
      (d : Disk)
      → at temp d ≡ some (file text)
      → at target d ≡ none
      → Replaced target old text (rename temp target d)
  rename-Replaced d t n =
      elim (operation-cases (λ files. renamed temp target (lookup temp files) files) d) [
        | inl e ↦ rw (e, t) (inl (refl, lookup-insert_self target (file text) _))
        | inr e ↦ rw e (inr (io_error, refl, inr n))
      ]

  -- From the removal of the old file on.
  swap-Replaced :
      (d : Disk)
      → at temp d ≡ some (file text)
      → at target d ≡ some (file old)
      → Replaced target old text ((remove target >> rename temp target) d)
  swap-Replaced d t o =
      elim (operation-cases (λ files. removed target (lookup target files) files) d) [
        | inl e ↦
            rw (e, o)
              (rename-Replaced (left (erase target d.files) d)
                (rw (lookup-erase, path_eq_symm temp target apart) t)
                (lookup-erase_self target d.files))
        | inr e ↦ rw e (inr (io_error, refl, inl o))
      ]

  -- From the closing of the temporary file on.
  close-Replaced :
      (d : Disk)
      → at temp d ≡ some (file text)
      → at target d ≡ some (file old)
      → Replaced target old text ((close >> (remove target >> rename temp target)) d)
  close-Replaced d t o = elim (operation-cases (λ files. (ok tt, files)) d) [
    | inl e ↦ rw e (swap-Replaced (left d.files d) t o)
    | inr e ↦ rw e (inr (io_error, refl, inl o))
  ]

  replace_file-Replaced :
      (d : Disk)
      → at target d ≡ some (file old)
      → Replaced target old text (replace_file text target temp d)
  replace_file-Replaced d o = elim (write_file-cases temp text d) [
    | inl e ↦ rw e (
        close-Replaced (left (insert temp (file text) d.files) d)
          (lookup-insert_self temp (file text) d.files) (rw (lookup-insert, apart) o))
    | inr (inl e) ↦ rw e (inr (io_error, refl, inl o))
    | inr (inr (s, e)) ↦ rw e (inr (io_error, refl, inl (rw (lookup-insert, apart) o)))
  ]

  deferred-Replaced :
      (r : Result (Unit {0})) (d : Disk)
      → Replaced target old text (r, d)
      → Replaced target old text (r, (remove temp d).1)
  deferred-Replaced r d (inl (k, a)) = inl (k, at-remove_temp d ∙ a)
  deferred-Replaced r d (inr (e, k, inl a)) = inr (e, k, inl (at-remove_temp d ∙ a))
  deferred-Replaced r d (inr (e, k, inr a)) = inr (e, k, inr (at-remove_temp d ∙ a))

-- `ioutil.TempFile` chooses a path at which nothing stands.
abbrev pub IsFresh : TempName → Type 0
IsFresh temp_name =
    (d : FilePath) (pattern : String) (files : Files)
    → lookup (temp_name d pattern files) files ≡ none

module _ (temp_name : TempName) (fresh : IsFresh temp_name) where
  pub temp_apart :
      (p : FilePath) (pattern : String) (target : FilePath) (files : Files) {v : Node}
      → lookup target files ≡ some v
      → path_eq (temp_name p pattern files) target ≡ false
  temp_apart p pattern target files e =
      elim (Bool-cases (path_eq (temp_name p pattern files) target)) [
        | inl same ↦ cc (
          e,
          fresh p pattern files,
          ap (λ q. lookup q files) ((path_eq_iff (temp_name p pattern files) target).0 same),
        )
        | inr other ↦ other
      ]

  through_temp :
      (target : FilePath) (old text : String) (d : Disk)
      → at target d ≡ some (file old)
      → Replaced target old text (
          (temp_file temp_name (parent target) "config.json.tmp" >>= λ temp.
          deferred (remove temp) (replace_file text target temp))
            d)
  through_temp target old text d o =
      elim (operation-cases
        (λ files.
          let p = temp_name (parent target) "config.json.tmp" files in
          (ok p, insert p (file "") files))
        d) [
          | inl e ↦
              rw e
                let temp = temp_name (parent target) "config.json.tmp" d.files in
                  let apart = temp_apart (parent target) "config.json.tmp" target d.files o in
                  let d' = left (insert temp (file "") d.files) d in
                  deferred-Replaced target temp old text apart (replace_file text target temp d').0
                    (replace_file text target temp d').1
                    (replace_file-Replaced target temp old text apart d'
                      (rw (lookup-insert, apart) o))
          | inr e ↦ rw e (inr (io_error, refl, inl o))
        ]

  -- Saving over a file ends in success with the new text in place, or in an error. After an error
  -- the file has its old text, or is gone: it is never left half written.
  pub save_to_file-Replaced :
      (target : FilePath) (old text : String) (d : Disk)
      → at target d ≡ some (file old)
      → Replaced target old text (save_to_file temp_name text target d)
  unfolding save_to_file
  save_to_file-Replaced target old text d o =
      elim (operation-cases (λ files. (found (lookup target files), files)) d) [
        | inl e ↦ rw (e, o) (through_temp target old text (left d.files d) o)
        | inr e ↦ rw e (through_temp target old text (left d.files d) o)
      ]
