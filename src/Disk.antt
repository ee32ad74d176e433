-- ===== src/Disk.antt =====
-- The operations of Go's `os`, `io/ioutil` and `path/filepath` that the store uses, over a disk
-- on which any operation may fail.
pub mod Entries
pub mod Cases
pub mod Dirs
pub mod Ways
use p2box.Base.{
  suc, ℕ, Bool, true, false, String, List, [], ◌∷◌, ◌++◌, Option, none, some, str_eq, if◌then◌else◌,
  ◌&&◌, ◌||◌, not,
}
use p2box.Go.{Error, os_error, not_exist, Result, ok, err, Go}
use p2box.Disk.Entries.{FilePath, Node, dir, file, Files, lookup, insert, erase, erase_tree}

-- What becomes of the next operation: it is carried out, it fails and changes nothing, or it
-- fails half way. Only a write leaves anything of the last kind behind.
pub data Fault : Type 0 where
  fine broken : Fault
  torn : String → Fault

-- `faults n` is the fault of the n-th operation to come, from 0.
pub record Disk : Type 0 where
  pub files : Files
  pub faults : ℕ → Fault

abbrev pub next_fault : Disk → Fault
next_fault d = d.faults 0

abbrev pub later_faults : Disk → ℕ → Fault
later_faults d n = d.faults (suc n)

abbrev pub io_error : Error
io_error = os_error "input/output error"

-- What an operation returns, and the files that it leaves.
abbrev pub Effect : Type 0 → Type 0
Effect A = Files → Result A × Files

abbrev pub operation : {A : Type 0} → Effect A → (String → Files → Files) → Go Disk A
operation act partial d = elim (next_fault d) [
  | fine ↦ let (r, files) = act d.files in (r, record { files = files; faults = later_faults d })
  | broken ↦
      (err (os_error "input/output error"), record { files = d.files; faults = later_faults d })
  | torn s ↦ (
    err (os_error "input/output error"),
    record { files = partial s d.files; faults = later_faults d },
  )
]

-- A failed operation that changes nothing.
abbrev pub no_trace : String → Files → Files
no_trace s files = files

abbrev pub found : Option Node → Result Node
found none = err not_exist
found (some node) = ok node

-- os.Stat
abbrev pub stat : FilePath → Go Disk Node
stat p = operation (λ files. (found (lookup p files), files)) no_trace

-- os.IsNotExist of the error of a call
abbrev pub is_not_exist : {A : Type 0} → Result A → Bool
is_not_exist (ok _) = false
is_not_exist (err not_exist) = true
is_not_exist (err _) = false

-- ioutil.WriteFile
abbrev pub write_file : FilePath → String → Go Disk Unit
write_file p text =
    operation (λ files. (ok tt, insert p (file text) files)) (λ part. insert p (file part))

abbrev pub content : Option Node → Result String
content none = err not_exist
content (some dir) = err (os_error "is a directory")
content (some (file text)) = ok text

-- ioutil.ReadFile
abbrev pub read_file : FilePath → Go Disk String
read_file p = operation (λ files. (content (lookup p files), files)) no_trace

abbrev pub removed : FilePath → Option Node → Effect Unit
removed p none files = (err not_exist, files)
removed p (some _) files = (ok tt, erase p files)

-- os.Remove of a file
abbrev pub remove : FilePath → Go Disk Unit
remove p = operation (λ files. removed p (lookup p files) files) no_trace

abbrev pub renamed : FilePath → FilePath → Option Node → Effect Unit
renamed p q none files = (err not_exist, files)
renamed p q (some node) files = (ok tt, insert q node (erase p files))

-- os.Rename of a file
abbrev pub rename : FilePath → FilePath → Go Disk Unit
rename p q = operation (λ files. renamed p q (lookup p files) files) no_trace

-- os.RemoveAll
abbrev pub remove_all : FilePath → Go Disk Unit
remove_all p = operation (λ files. (ok tt, erase_tree p files)) no_trace

-- A directory at the path, if nothing stands there.
abbrev pub with_dir : FilePath → Option Node → Files → Files
with_dir p none files = insert p dir files
with_dir p (some _) files = files

-- Directories at `p` and at the paths from it down along the elements.
unfoldable pub with_dirs : FilePath → List String → Files → Files
with_dirs p [] files = with_dir p (lookup p files) files
with_dirs p (x ∷ xs) files = with_dirs (p ++ (x ∷ [])) xs (with_dir p (lookup p files) files)

abbrev pub is_file : Option Node → Bool
is_file none = false
is_file (some dir) = false
is_file (some (file _)) = true

-- Whether `p`, or a path from it down along the elements, is a file.
unfoldable pub file_on_way : FilePath → List String → Files → Bool
file_on_way p [] files = is_file (lookup p files)
file_on_way p (x ∷ xs) files = is_file (lookup p files) || file_on_way (p ++ (x ∷ [])) xs files

-- Where a directory stands already, nothing is looked at above it.
abbrev pub unless_dir : Option Node → Bool → Bool
unless_dir none b = b
unless_dir (some dir) b = false
unless_dir (some (file _)) b = b

abbrev pub is_blocked : FilePath → Files → Bool
is_blocked p files = unless_dir (lookup p files) (file_on_way [] p files)

abbrev pub made : FilePath → Bool → Effect Unit
made p true files = (err (os_error "not a directory"), files)
made p false files = (ok tt, with_dirs [] p files)

-- os.MkdirAll: it fails where the path is a file, or, if it is missing, one above it.
abbrev pub mkdir_all : FilePath → Go Disk Unit
mkdir_all p = operation (λ files. made p (is_blocked p files) files) no_trace

-- Closing a file changes nothing.
abbrev pub close : Go Disk Unit
close = operation (λ files. (ok tt, files)) no_trace

-- The name of a temporary file: some function of the directory, the pattern and the files.
abbrev pub TempName : Type 0
TempName = FilePath → String → Files → FilePath

-- ioutil.TempFile: an empty file at the path that is chosen
abbrev pub temp_file : TempName → FilePath → String → Go Disk FilePath
temp_file temp_name d pattern =
    operation (λ files. let p = temp_name d pattern files in (ok p, insert p (file "") files))
      no_trace

-- `defer cleanup()`: it runs when the body returns, and its error is dropped.
abbrev pub deferred : {A : Type 0} → Go Disk Unit → Go Disk A → Go Disk A
deferred cleanup body d = let (r, d') = body d in (r, (cleanup d').1)
