-- ===== src/Disk/Cases.antt =====
-- An operation is carried out or fails.
use p2box.Disk.{
  ok, Disk, Fault, fine, broken, torn, Effect, operation, no_trace, later_faults, io_error,
  write_file,
}
use p2box.Base.{◌≡◌, refl, ◌⊎◌, inl, inr, String}
use p2box.Go.{err}
use p2box.Disk.Entries.{FilePath, file, insert, Files}

Fault-cases : (x : Fault) → (x ≡ fine) ⊎ ((x ≡ broken) ⊎ ((s : String) × (x ≡ torn s)))
Fault-cases fine = inl refl
Fault-cases broken = inr (inl refl)
Fault-cases (torn s) = inr (inr (s, refl))

-- The disk once an operation has left these files.
abbrev pub left : Files → Disk → Disk
left files d = record { files = files; faults = later_faults d }

pub operation-cases :
    {A : Type 0} (act : Effect A) (d : Disk)
    → (operation act no_trace d ≡ ((act d.files).0, left (act d.files).1 d))
      ⊎ (operation act no_trace d ≡ (err io_error, left d.files d))
operation-cases act d = elim (Fault-cases (d.faults 0)) [
  | inl e ↦ inl (rw (e, operation))
  | inr (inl e) ↦ inr (rw (e, operation))
  | inr (inr (s, e)) ↦ inr (rw (e, operation))
]

pub write_file-cases :
    (p : FilePath) (text : String) (d : Disk)
    → (write_file p text d ≡ (ok tt, left (insert p (file text) d.files) d))
      ⊎ ((write_file p text d ≡ (err io_error, left d.files d))
          ⊎ ((s : String) × (write_file p text d
                ≡ (err io_error, left (insert p (file s) d.files) d))))
write_file-cases p text d = elim (Fault-cases (d.faults 0)) [
  | inl e ↦ inl (rw (e, operation))
  | inr (inl e) ↦ inr (inl (rw (e, operation)))
  | inr (inr (s, e)) ↦ inr (inr (s, rw (e, operation)))
]

-- A disk on which nothing fails.
abbrev pub fine_disk : Files → Disk
fine_disk files = record { files = files; faults = λ _. fine }
