-- ===== src/Disk/Dirs.antt =====
-- What `os.MkdirAll` does to the paths of a disk.
use p2box.Base.{
  eq_iff, true, none, ◌≡◌, refl, false, String, List, [], ◌∷◌, ◌++◌, some, arith, ◌+◌, ◌<◌, length,
  length-append, Option-cases, inl, inr, ap, ◌∙◌,
}
use p2box.Disk.Entries.{
  is_under, FilePath, Node, dir, Files, path_eq, path_eq_iff, lookup, lookup-insert,
}
use mathlib.Core.List.{append-nil, append_assoc}
use p2box.Disk.{with_dir, with_dirs}

pub longer_apart : (p k : FilePath) → length p < length k → path_eq p k ≡ false
longer_apart p k h = grind (arith, path_eq_iff p k, ap (length {A = String}))

lookup-with_dir_kept :
    (p k : FilePath) (files : Files) {v : Node}
    → lookup k files ≡ some v
    → lookup k (with_dir p (lookup p files) files) ≡ some v
lookup-with_dir_kept p k files h = elim (Option-cases (lookup p files)) [
  | inl n ↦ rw (n, lookup-insert) (ground (arith, path_eq_iff p k, ap (λ q. lookup q files)))
  | inr (v, n) ↦ rw n h
]

-- What is there stays.
pub lookup-with_dirs_kept :
    (p : FilePath) (xs : List String) (k : FilePath) (files : Files) {v : Node}
    → lookup k files ≡ some v
    → lookup k (with_dirs p xs files) ≡ some v
unfolding with_dirs
lookup-with_dirs_kept p [] k files h = lookup-with_dir_kept p k files h
lookup-with_dirs_kept p (x ∷ xs) k files h =
    lookup-with_dirs_kept (p ++ (x ∷ [])) xs k _ (lookup-with_dir_kept p k files h)

lookup-with_dir_longer :
    (p k : FilePath) (files : Files)
    → length p < length k
    → lookup k (with_dir p (lookup p files) files) ≡ lookup k files
lookup-with_dir_longer p k files h = elim (Option-cases (lookup p files)) [
  | inl n ↦ rw (n, lookup-insert, longer_apart p k h)
  | inr (v, n) ↦ rw n
]

-- Nothing changes at a longer path.
pub lookup-with_dirs_longer :
    (p : FilePath) (xs : List String) (k : FilePath) (files : Files)
    → length p + length xs < length k
    → lookup k (with_dirs p xs files) ≡ lookup k files
unfolding with_dirs
lookup-with_dirs_longer p [] k files h = lookup-with_dir_longer p k files (omega arith)
lookup-with_dirs_longer p (x ∷ xs) k files h =
    lookup-with_dirs_longer (p ++ (x ∷ [])) xs k _ (omega (arith, length-append p (x ∷ [])))
    ∙ lookup-with_dir_longer p k files (omega arith)

with_dir_found :
    (p : FilePath) (files : Files)
    → (v : Node) × (lookup p (with_dir p (lookup p files) files) ≡ some v)
with_dir_found p files = elim (Option-cases (lookup p files)) [
  | inl n ↦ (dir, rw (n, lookup-insert, (path_eq_iff p p).1 refl))
  | inr (v, n) ↦ (v, rw n n)
]

-- Something stands at the path that was asked for.
pub with_dirs_found :
    (p : FilePath) (xs : List String) (files : Files)
    → (v : Node) × (lookup (p ++ xs) (with_dirs p xs files) ≡ some v)
unfolding with_dirs
with_dirs_found p [] files = let (v, e) = with_dir_found p files in (v, rw append-nil e)
with_dirs_found p (x ∷ xs) files =
    let (v, e) = with_dirs_found (p ++ (x ∷ [])) xs (with_dir p (lookup p files) files) in
    (v, rw append_assoc at e)

pub is_under-append : (k : FilePath) (xs : List String) → is_under k (k ++ xs) ≡ true
is_under-append [] xs = refl
is_under-append (x ∷ k) xs = rw ((eq_iff x x).1 refl) (is_under-append k xs)

lookup-with_dir_other :
    (p k : FilePath) (xs : List String) (files : Files)
    → is_under k (p ++ xs) ≡ false
    → lookup k (with_dir p (lookup p files) files) ≡ lookup k files
lookup-with_dir_other p k xs files h = elim (Option-cases (lookup p files)) [
  | inl n ↦
      rw (n, lookup-insert)
        (ground (arith, path_eq_iff p k, ap (λ q. is_under q (p ++ xs)), is_under-append p xs))
  | inr (v, n) ↦ rw n
]

-- Nothing changes at a path that is not on the way.
pub lookup-with_dirs_other :
    (p : FilePath) (xs : List String) (k : FilePath) (files : Files)
    → is_under k (p ++ xs) ≡ false
    → lookup k (with_dirs p xs files) ≡ lookup k files
unfolding with_dirs
lookup-with_dirs_other p [] k files h = lookup-with_dir_other p k [] files h
lookup-with_dirs_other p (x ∷ xs) k files h =
    lookup-with_dirs_other (p ++ (x ∷ [])) xs k _ (rw append_assoc h)
    ∙ lookup-with_dir_other p k (x ∷ xs) files h

-- Where nothing stood at the path, a directory does.
pub with_dirs_made :
    (p : FilePath) (xs : List String) (files : Files)
    → lookup (p ++ xs) files ≡ none
    → lookup (p ++ xs) (with_dirs p xs files) ≡ some dir
unfolding with_dirs
with_dirs_made p [] files h =
    let n : lookup p files ≡ none = rw append-nil at h in
    rw (append-nil, n, lookup-insert, (path_eq_iff p p).1 refl)
with_dirs_made p (x ∷ xs) files h =
    let n : lookup (p ++ (x ∷ xs)) (with_dir p (lookup p files) files) ≡ none =
      lookup-with_dir_longer p (p ++ (x ∷ xs)) files (omega (arith, length-append p (x ∷ xs)))
      ∙ h in
    let made =
      with_dirs_made (p ++ (x ∷ [])) xs (with_dir p (lookup p files) files) (rw append_assoc n) in
    rw append_assoc at made
