-- ===== src/ImageCache/Download.antt =====
-- libmachine/mcnutils/b2p.go: the download of an image, on a disk on which any operation may fail.
pub mod Delivered
use p2box.Base.{
  ℕ, String, List, [], ◌∷◌, ◌++◌, Option, none, some, Bool, true, false, if◌then◌else◌, str_eq,
  ◌||◌,
}
use p2box.Go.{
  Error, wrap, panic, message, Result, ok, err, Go, pure, fail, lift, wrap_with, ◌>>=◌, ◌>>◌,
}
use p2box.Persist.Filestore.{join}
use p2box.Disk.Entries.{FilePath, Node}
use p2box.Disk.{
  Disk, stat, write_file, read_file, remove, rename, close, deferred, temp_file, TempName, io_error,
}

-- What comes from where an image is read: all of it, or a part and then an error.
pub data Body : Type 0 where
  whole : String → Body
  cut_short : String → Body

-- The answer to a request. The code does not look at its status.
pub record Response : Type 0 where
  pub status : ℕ
  pub body : Body

-- The parts of a parsed address that the code uses.
pub record Url : Type 0 where
  pub scheme : String
  pub path : FilePath

-- `url.Parse`, which is none where it fails, `client.Get`, and the names of temporary files, of
-- which `tmp_pattern` is `file + ".tmp"`.
pub record Web : Type 0 where
  pub parse : String → Option Url
  pub get : String → Result Response
  pub tmp_pattern : String → String
  pub temp_name : TempName

abbrev pub body_of : Response → Body
body_of rsp = rsp.body

-- io.Copy
abbrev pub copy_body : FilePath → Body → Go Disk Unit
copy_body temp (whole text) = write_file temp text
copy_body temp (cut_short part) = write_file temp part >> fail (message "unexpected EOF")

abbrev pub removed_if : FilePath → Result Node → Go Disk Unit
removed_if name (ok _) = wrap_with (wrap "Error removing temporary download file") (remove name)
removed_if name (err _) = pure tt

unfoldable pub remove_file_if_exists : FilePath → Go Disk Unit
remove_file_if_exists name d = let (found, d') = stat name d in removed_if name found d'

-- From the copy on, under the deferred removal of the temporary file.
abbrev pub put_in_place : FilePath → Body → FilePath → Go Disk Unit
put_in_place dest body temp = do
  copy_body temp body
  close
  remove_file_if_exists dest
  rename temp dest

module _ (web : Web) where
  abbrev pub whole_file : String → Go Disk Body
  whole_file text = pure (whole text)

  abbrev pub fetched_by_get : Result Response → Go Disk Body
  fetched_by_get (ok rsp) = pure (body_of rsp)
  fetched_by_get (err e) = fail e

  -- A local file is read at once; the code opens it here, and reads it during the copy.
  abbrev pub fetched : Bool → FilePath → String → Go Disk Body
  fetched true path iso_url = read_file path >>= whole_file
  fetched false path iso_url = fetched_by_get (web.get iso_url)

  -- The error of `url.Parse` is dropped, and the pointer beside it is nil.
  abbrev pub parsed : Option Url → String → Go Disk Body
  parsed none iso_url = fail (panic "invalid memory address or nil pointer dereference")
  parsed (some u) iso_url = fetched (str_eq u.scheme "file" || str_eq u.scheme "") u.path iso_url

  unfoldable pub source : String → Go Disk Body
  source iso_url = parsed (web.parse iso_url) iso_url

  abbrev pub save_body : FilePath → String → Body → Go Disk Unit
  save_body target_dir name body = do
    temp ← temp_file web.temp_name target_dir (web.tmp_pattern name)
    deferred (remove_file_if_exists temp) (put_in_place (join target_dir name) body temp)

  unfoldable pub download : FilePath → String → String → Go Disk Unit
  download target_dir name iso_url = source iso_url >>= save_body target_dir name
