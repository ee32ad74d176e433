-- ===== src/ImageCache/Download/Delivered.antt =====
-- What a download leaves at its destination when an operation on the way fails.
use p2box.Disk.{content, read_file, Disk, found, io_error, close, rename, renamed, removed}
use p2box.Go.Laws.{Result-cases}
use p2box.Base.{
  Bool, true, false, str_eq, ◌||◌, ap, ◌∙◌, ◌≡◌, ◌⊎◌, inl, inr, String, Option, none, some, refl,
  Option-cases,
}
use p2box.Go.{◌>>=◌, continue, Error, Result, ok, err, message, wrap, ◌>>◌}
use p2box.ImageCache.Download.{
  Url, Response, parsed, fetched, fetched_by_get, whole_file, source, save_body, download, join,
  Web, Body, whole, cut_short, remove_file_if_exists, put_in_place,
}
use p2box.Disk.Entries.{
  FilePath, Node, file, Files, erase, insert, lookup, lookup-insert, lookup-erase,
  lookup-insert_self, lookup-erase_self, path_eq, path_eq_symm,
}
use p2box.Disk.Cases.{operation-cases, write_file-cases, left}

-- The removal leaves the files as they were, or erases the path.
remove_file_if_exists-cases :
    (p : FilePath) (d : Disk)
    → (d' : Disk) × ((remove_file_if_exists p d ≡ (ok tt, d'))
        ⊎ ((e : Error) × (remove_file_if_exists p d ≡ (err e, d'))))
      × ((d'.files ≡ d.files) ⊎ (d'.files ≡ erase p d.files))
unfolding remove_file_if_exists
remove_file_if_exists-cases p d =
    let d1 = left d.files d in
    elim (operation-cases (λ files. (found (lookup p files), files)) d) [
      | inr e ↦ (d1, inl (rw e refl), inl refl)
      | inl e ↦ elim (Option-cases (lookup p d.files)) [
        | inl n ↦ (d1, inl (rw (e, n) refl), inl refl)
        | inr (v, n) ↦ elim (operation-cases (λ files. removed p (lookup p files) files) d1) [
          | inl k ↦ (left (erase p d.files) d1, inl (rw (e, n, k, n) refl), inr refl)
          | inr k ↦ (
            left d.files d1,
            inr (wrap "Error removing temporary download file" io_error, rw (e, n, k) refl),
            inl refl,
          )
        ]
      ]
    ]

-- What a download promises of its destination, where `held` stood: with success the whole text of
-- a body, and with an error what stood there, or nothing.
abbrev pub Delivered : FilePath → Option Node → Result Body → Result (Unit {0}) × Disk → Type 0
Delivered dest held body (r, d) =
    ((r ≡ ok tt)
      × (text : String) × (body ≡ ok (whole text))
      × (lookup dest d.files ≡ some (file text)))
    ⊎ ((e : Error) × (r ≡ err e) × ((lookup dest d.files ≡ held) ⊎ (lookup dest d.files ≡ none)))

module _ (dest temp : FilePath) (held : Option Node) (apart : path_eq temp dest ≡ false) where
  dest-cleaned :
      (d : Disk) → lookup dest (remove_file_if_exists temp d).1.files ≡ lookup dest d.files
  dest-cleaned d =
      let kept : (files : Files)
          → (files ≡ d.files) ⊎ (files ≡ erase temp d.files)
          → lookup dest files ≡ lookup dest d.files =
        λ files h. elim h [
          | inl w ↦ ap (lookup dest) w
          | inr w ↦ ap (lookup dest) w ∙ rw (lookup-erase, apart) refl
        ] in
      let (d', r, w) = remove_file_if_exists-cases temp d in
      elim r [ inl k ↦ rw k (kept d'.files w) | inr (e, k) ↦ rw k (kept d'.files w) ]

  rename-Delivered :
      (text : String) (d : Disk)
      → lookup temp d.files ≡ some (file text)
      → (lookup dest d.files ≡ held) ⊎ (lookup dest d.files ≡ none)
      → Delivered dest held (ok (whole text)) (rename temp dest d)
  rename-Delivered text d t h =
      elim (operation-cases (λ files. renamed temp dest (lookup temp files) files) d) [
        | inl e ↦ rw (e, t) (inl (refl, text, refl, lookup-insert_self dest (file text) _))
        | inr e ↦ rw e (inr (io_error, refl, h))
      ]

  swap-Delivered :
      (text : String) (d : Disk)
      → lookup temp d.files ≡ some (file text)
      → lookup dest d.files ≡ held
      → Delivered dest held (ok (whole text)) ((remove_file_if_exists dest >> rename temp dest) d)
  swap-Delivered text d t o =
      let there : (files : Files)
          → (files ≡ d.files) ⊎ (files ≡ erase dest d.files)
          → lookup temp files ≡ some (file text) =
        λ files h. elim h [
          | inl w ↦ ap (lookup temp) w ∙ t
          | inr w ↦ ap (lookup temp) w ∙ rw (lookup-erase, path_eq_symm temp dest apart) t
        ] in
      let gone : (files : Files)
          → (files ≡ d.files) ⊎ (files ≡ erase dest d.files)
          → (lookup dest files ≡ held) ⊎ (lookup dest files ≡ none) =
        λ files h. elim h [
          | inl w ↦ inl (ap (lookup dest) w ∙ o)
          | inr w ↦ inr (ap (lookup dest) w ∙ lookup-erase_self dest d.files)
        ] in
      let (d', r, w) = remove_file_if_exists-cases dest d in
      elim r [
        | inl k ↦ rw k (rename-Delivered text d' (there d'.files w) (gone d'.files w))
        | inr (e, k) ↦ rw k (inr (e, refl, gone d'.files w))
      ]

  close-Delivered :
      (text : String) (d : Disk)
      → lookup temp d.files ≡ some (file text)
      → lookup dest d.files ≡ held
      → Delivered dest held
          (ok (whole text))
          ((close >> (remove_file_if_exists dest >> rename temp dest)) d)
  close-Delivered text d t o = elim (operation-cases (λ files. (ok tt, files)) d) [
    | inl e ↦ rw e (swap-Delivered text (left d.files d) t o)
    | inr e ↦ rw e (inr (io_error, refl, inl o))
  ]

  put_in_place-Delivered :
      (body : Body) (d : Disk)
      → lookup dest d.files ≡ held
      → Delivered dest held (ok body) (put_in_place dest body temp d)
  put_in_place-Delivered (whole text) d o = elim (write_file-cases temp text d) [
    | inl e ↦ rw e (
        close-Delivered text (left (insert temp (file text) d.files) d)
          (lookup-insert_self temp (file text) d.files) (rw (lookup-insert, apart) o))
    | inr (inl e) ↦ rw e (inr (io_error, refl, inl o))
    | inr (inr (s, e)) ↦ rw e (inr (io_error, refl, inl (rw (lookup-insert, apart) o)))
  ]
  put_in_place-Delivered (cut_short part) d o = elim (write_file-cases temp part d) [
    | inl e ↦ rw e (inr (message "unexpected EOF", refl, inl (rw (lookup-insert, apart) o)))
    | inr (inl e) ↦ rw e (inr (io_error, refl, inl o))
    | inr (inr (s, e)) ↦ rw e (inr (io_error, refl, inl (rw (lookup-insert, apart) o)))
  ]

  deferred-Delivered :
      (body : Result Body) (r : Result (Unit {0})) (d : Disk)
      → Delivered dest held body (r, d)
      → Delivered dest held body (r, (remove_file_if_exists temp d).1)
  deferred-Delivered body r d (inl (k, text, b, a)) = inl (k, text, b, dest-cleaned d ∙ a)
  deferred-Delivered body r d (inr (e, k, inl a)) = inr (e, k, inl (dest-cleaned d ∙ a))
  deferred-Delivered body r d (inr (e, k, inr a)) = inr (e, k, inr (dest-cleaned d ∙ a))

module _ (web : Web) where
  read_keeps : (p : FilePath) (d : Disk) → ((read_file p >>= whole_file web) d).1.files ≡ d.files
  read_keeps p d = elim (operation-cases (λ files. (content (lookup p files), files)) d) [
    | inl e ↦ elim (Result-cases (content (lookup p d.files))) [
      | inl (text, k) ↦ rw (e, k) refl
      | inr (x, k) ↦ rw (e, k) refl
    ]
    | inr e ↦ rw e refl
  ]

  fetched_by_get_keeps :
      (r : Result Response) (d : Disk) → (fetched_by_get web r d).1.files ≡ d.files
  fetched_by_get_keeps (ok rsp) d = refl
  fetched_by_get_keeps (err e) d = refl

  fetched_keeps :
      (local : Bool) (p : FilePath) (iso_url : String) (d : Disk)
      → (fetched web local p iso_url d).1.files ≡ d.files
  fetched_keeps true p iso_url d = read_keeps p d
  fetched_keeps false p iso_url d = fetched_by_get_keeps (web.get iso_url) d

  parsed_keeps :
      (u : Option Url) (iso_url : String) (d : Disk) → (parsed web u iso_url d).1.files ≡ d.files
  parsed_keeps none iso_url d = refl
  parsed_keeps (some u) iso_url d =
      fetched_keeps (str_eq u.scheme "file" || str_eq u.scheme "") u.path iso_url d

  module _ (target_dir : FilePath) (name : String)
      (apart : (files : Files)
        → path_eq (web.temp_name target_dir (web.tmp_pattern name) files) (join target_dir name)
          ≡ false) where
    save_body-Delivered :
        (held : Option Node) (body : Body) (d : Disk)
        → lookup (join target_dir name) d.files ≡ held
        → Delivered (join target_dir name) held (ok body) (save_body web target_dir name body d)
    save_body-Delivered held body d o =
        let dest = join target_dir name in
        let path_in = web.temp_name target_dir (web.tmp_pattern name) in
        elim (operation-cases (λ files. let p = path_in files in (ok p, insert p (file "") files))
          d) [
            | inl e ↦
                rw e
                  let temp = path_in d.files in
                    let d' = left (insert temp (file "") d.files) d in
                    let placed = put_in_place dest body temp d' in
                    deferred-Delivered dest temp held (apart d.files) (ok body) placed.0 placed.1 (
                      put_in_place-Delivered dest temp held (apart d.files) body d'
                        (rw (lookup-insert, apart d.files) o))
            | inr e ↦ rw e (inr (io_error, refl, inl o))
          ]

    continued-Delivered :
        (held : Option Node) (body : Result Body) (d : Disk)
        → lookup (join target_dir name) d.files ≡ held
        → Delivered
            (join target_dir name)
            held
            body
            (continue (save_body web target_dir name) body d)
    continued-Delivered held (ok body) d o = save_body-Delivered held body d o
    continued-Delivered held (err e) d o = inr (e, refl, inl o)

    -- Whatever fails while an image is downloaded, its destination holds what it held before, or
    -- nothing, or the whole text that was read, and a download without an error means the last.
    -- The condition is that a temporary file never has the name of the destination.
    pub download-Delivered :
        (iso_url : String) (d : Disk)
        → Delivered
            (join target_dir name)
            (lookup (join target_dir name) d.files)
            (source web iso_url d).0
            (download web target_dir name iso_url d)
    unfolding download source
    download-Delivered iso_url d =
        continued-Delivered (lookup (join target_dir name) d.files) (source web iso_url d).0
          (source web iso_url d).1
          (ap (lookup (join target_dir name)) (parsed_keeps (web.parse iso_url) iso_url d))
