-- ===== src/Tests/Images.antt =====
-- Downloads of images.
use p2box.ImageCache.Download.{Web, whole, download, source, remove_file_if_exists}
use p2box.ImageCache.Download.Delivered.{Delivered, download-Delivered}
use p2box.Go.{ok}
use p2box.Persist.Filestore.{join}
use p2box.Disk.Entries.{FilePath, file, lookup, insert, erase}
use p2box.Disk.{Disk}
use p2box.Disk.Cases.{fine_disk}
use p2box.ImageCache.Progress.{print_up_to, Progress, read_chunks, read_chunk, percent, dot}
use p2box.ImageCache.Progress.Chunks.{total, read_chunks-total}
use p2box.Base.{◌≡◌, [], ◌∷◌, none, some, refl}

-- Ten bytes are expected, and nothing is printed yet.
abbrev ten_bytes : Progress
ten_bytes = record {
  out = [];
  bytes_transferred = 0;
  expected_length = some 10;
  next_percent_to_print = 0;
}

abbrev five_bytes : Progress
five_bytes = record {
  out = percent 0 ∷ dot ∷ dot ∷ dot ∷ dot ∷ percent 10 ∷ [];
  bytes_transferred = 5;
  expected_length = some 50;
  next_percent_to_print = 12;
}

prints_dots :
    read_chunks (2 ∷ 0 ∷ 3 ∷ []) (record ten_bytes { expected_length = some 50 }) ≡ some five_bytes
unfolding read_chunks read_chunk print_up_to
prints_dots = refl

empty_page_panics : read_chunks (2 ∷ []) (record ten_bytes { expected_length = some 0 }) ≡ none
unfolding read_chunks read_chunk
empty_page_panics = refl

read_chunks-total_example :
    read_chunks (3 ∷ 0 ∷ 7 ∷ []) ten_bytes ≡ read_chunk (total (3 ∷ 0 ∷ 7 ∷ [])) ten_bytes
read_chunks-total_example = read_chunks-total (3 ∷ 0 ∷ 7 ∷ []) ten_bytes

-- A server that has no image, and whose answer is a page that says so.
abbrev no_image : Web
no_image = record {
  parse = λ s. some (record { scheme = "https"; path = [] });
  get = λ s. ok (record { status = 404; body = whole "Not Found" });
  tmp_pattern = λ s. s;
  temp_name = λ d pattern files. "temporary" ∷ [];
}

abbrev cache : FilePath
cache = "home" ∷ "cache" ∷ []

abbrev old_image : Disk
old_image = fine_disk ((join cache "boot2podman.iso", file "old image") ∷ [])

page_is_kept :
    (download no_image cache "boot2podman.iso" "https://example.org/a" old_image)
    ≡ (ok tt, fine_disk ((join cache "boot2podman.iso", file "Not Found") ∷ []))
unfolding download source remove_file_if_exists lookup insert erase
page_is_kept = refl

download-Delivered_example :
    Delivered
      (join cache "boot2podman.iso")
      (some (file "old image"))
      (ok (whole "Not Found"))
      (download no_image cache "boot2podman.iso" "https://example.org/a" old_image)
unfolding source lookup
download-Delivered_example =
    download-Delivered no_image cache "boot2podman.iso" (λ files. refl) "https://example.org/a"
      old_image
