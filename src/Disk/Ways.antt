-- ===== src/Disk/Ways.antt =====
-- Which changes of a disk keep a way free of files.
use p2box.Base.{
  false, ◌≡◌, refl, String, List, [], ◌∷◌, ◌++◌, arith, ◌+◌, ◌≤◌, length, length-append,
  Option-cases, inl, inr, ◌||◌, Bool, Bool-cases,
}
use mathlib.Core.List.{append_assoc}
use p2box.Disk.Entries.{FilePath, Files, path_eq, lookup, lookup-insert}
use p2box.Disk.{with_dir, with_dirs, is_file, file_on_way}

or-false : (a b : Bool) → (a || b) ≡ false → (a ≡ false) × (b ≡ false)
or-false a b h = ground arith

-- A way stays free of files if no path as short as the whole way becomes a file.
pub file_on_way-keeps :
    (p : FilePath) (xs : List String) (files files' : Files)
    → ((k : FilePath)
        → length k ≤ length p + length xs
        → is_file (lookup k files) ≡ false
        → is_file (lookup k files') ≡ false)
    → file_on_way p xs files ≡ false
    → file_on_way p xs files' ≡ false
unfolding file_on_way
file_on_way-keeps p [] files files' keeps h = keeps p (omega arith) h
file_on_way-keeps p (x ∷ xs) files files' keeps h =
    let (a, b) = or-false (is_file (lookup p files)) (file_on_way (p ++ (x ∷ [])) xs files) h in
    rw
      (
        keeps p (omega arith) a,
        file_on_way-keeps (p ++ (x ∷ [])) xs files files'
            (λ k le. keeps k (omega (arith, length-append p (x ∷ [])))) b,
      )
      refl

-- A way with one more element.
pub file_on_way-append :
    (p : FilePath) (xs : List String) (y : String) (files : Files)
    → file_on_way p xs files ≡ false
    → is_file (lookup (p ++ (xs ++ (y ∷ []))) files) ≡ false
    → file_on_way p (xs ++ (y ∷ [])) files ≡ false
unfolding file_on_way
file_on_way-append p [] y files h k = rw (h, k) refl
file_on_way-append p (x ∷ xs) y files h k =
    let (a, b) = or-false (is_file (lookup p files)) (file_on_way (p ++ (x ∷ [])) xs files) h in
    rw (a, file_on_way-append (p ++ (x ∷ [])) xs y files b (rw append_assoc k)) refl

is_file-with_dir :
    (p k : FilePath) (files : Files)
    → is_file (lookup k files) ≡ false
    → is_file (lookup k (with_dir p (lookup p files) files)) ≡ false
is_file-with_dir p k files h = elim (Option-cases (lookup p files)) [
  | inl n ↦ elim (Bool-cases (path_eq p k)) [
    | inl e ↦ rw (n, lookup-insert, e) refl
    | inr e ↦ rw (n, lookup-insert, e) h
  ]
  | inr (v, n) ↦ rw n h
]

-- Directories that are made are no files.
pub is_file-with_dirs :
    (p : FilePath) (xs : List String) (k : FilePath) (files : Files)
    → is_file (lookup k files) ≡ false
    → is_file (lookup k (with_dirs p xs files)) ≡ false
unfolding with_dirs
is_file-with_dirs p [] k files h = is_file-with_dir p k files h
is_file-with_dirs p (x ∷ xs) k files h =
    is_file-with_dirs (p ++ (x ∷ [])) xs k _ (is_file-with_dir p k files h)
