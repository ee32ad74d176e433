-- ===== src/ImageCache.antt =====
-- libmachine/mcnutils/b2p.go: the image that new machines start from, and its cache.
pub mod Progress
pub mod Download
use p2box.Base.{
  Bool, true, false, String, Text, codes, has_prefix, trim_space, List, [], ◌∷◌, Option, none, some,
  if◌then◌else◌, str_eq, not,
}
use p2box.Go.{Error, message, not_exist, Result, ok, err, Go, pure, ◌>>=◌, ◌>>◌}
use p2box.Drivers.{Method}

-- `releaseGetter`
pub record ReleaseGetter (W : Type 0) : Type 0 where
  pub filename : String
  pub get_release_tag : String → Go W String
  pub get_release_url : String → Go W String
  pub download : String → String → String → Go W Unit

-- `iso`
pub record Iso (W : Type 0) : Type 0 where
  pub path : String
  pub exists : Method W Bool
  pub version : Go W String

-- `B2pUtils`, with what it uses of packages os and path/filepath.
pub record B2pUtils (W : Type 0) : Type 0 where
  pub release_getter : ReleaseGetter W
  pub iso : Iso W
  pub store_path : String
  pub img_cache_path : String
  pub stat : String → Go W Unit
  pub mkdir : String → Go W Unit
  pub copy_file : String → String → Go W Unit
  pub join : List String → String

abbrev pub no_version : Error
no_version = message "Did not find prefix \"-v\" in version string"

-- What follows the first "-" with a "v" behind it.
abbrev pub after_dash : Text → Option Text
after_dash [] = none
after_dash (c ∷ s) =
    let rest = after_dash s in if has_prefix (c ∷ s) (codes "-v") then some s else rest

abbrev pub version_or_none : Option Text → Result Text
version_or_none none = err no_version
version_or_none (some v) = ok v

-- The version in the volume identifier of an image.
unfoldable pub version_of : Text → Result Text
version_of iso_metadata = version_or_none (after_dash (trim_space iso_metadata))

module _ {W : Type 0} (b : B2pUtils W) where
  abbrev latest_of : String → Result String → Bool
  latest_of local_ver (err e) = true
  latest_of local_ver (ok latest_ver) = str_eq local_ver latest_ver

  abbrev pub compared : Result String → Method W Bool
  compared (err e) w = (false, w)
  compared (ok local_ver) w =
      let (r, w') = b.release_getter.get_release_tag "" w in (latest_of local_ver r, w')

  unfoldable pub is_latest : Method W Bool
  is_latest w = let (r, w') = b.iso.version w in compared r w'

  unfoldable pub download_iso : String → String → String → Go W Unit
  download_iso dir file iso_url = b.release_getter.download dir file iso_url

  unfoldable pub download_latest_boot2podman : String → Go W Unit
  download_latest_boot2podman api_url = do
    latest_release_url ← b.release_getter.get_release_url api_url
    download_iso b.img_cache_path b.release_getter.filename latest_release_url

  -- Any error of `Stat` but "does not exist" is dropped.
  abbrev make_if_missing : Result (Unit {0}) → Go W Unit
  make_if_missing (err not_exist) = b.mkdir b.img_cache_path
  make_if_missing r = pure tt

  abbrev pub ensure_cache_dir : Go W Unit
  ensure_cache_dir w = let (r, w') = b.stat b.img_cache_path w in make_if_missing r w'

  abbrev unless_latest : Go W Unit
  unless_latest w =
      let (latest, w') = is_latest w in
      let downloaded = download_latest_boot2podman "" w' in
      if latest then (ok tt, w') else downloaded

  -- An image with a URL of its own is not cached.
  abbrev pub refreshed : Bool → String → Go W Unit
  refreshed exists iso_url =
      if not (str_eq iso_url "")
      then pure tt
      else if not exists
      then download_latest_boot2podman ""
      else unless_latest

  unfoldable pub update_iso_cache : String → Go W Unit
  update_iso_cache iso_url = do
    ensure_cache_dir
    λ w. let (exists, w') = b.iso.exists w in refreshed exists iso_url w'

  abbrev machine_dir : String → String
  machine_dir machine_name = b.join (b.store_path ∷ "machines" ∷ machine_name ∷ [])

  abbrev pub delivered : String → String → Go W Unit
  delivered iso_url dir =
      if str_eq iso_url ""
      then b.copy_file b.iso.path (b.join (dir ∷ b.release_getter.filename ∷ []))
      else b.release_getter.get_release_url iso_url >>= λ download_url.
          download_iso dir b.release_getter.filename download_url

  unfoldable pub copy_iso_to_machine_dir : String → String → Go W Unit
  copy_iso_to_machine_dir iso_url machine_name = do
    update_iso_cache iso_url
    delivered iso_url (machine_dir machine_name)
