-- ===== src/Provision/Release.antt =====
-- libmachine/provision/os_release.go: the reader of /etc/os-release.
pub mod RoundTrip
pub mod Panic
use p2box.Base.{
  ℕ, ◌==◌, length, Bool, Text, codes, text_eq, split, scan_lines, List, [], ◌∷◌, Option, none, some,
  if◌then◌else◌,
}

pub record OsRelease : Type 0 where
  pub ansi_color : Text
  pub name : Text
  pub version : Text
  pub variant : Text
  pub variant_id : Text
  pub id : Text
  pub id_like : Text
  pub pretty_name : Text
  pub version_id : Text
  pub home_url : Text
  pub support_url : Text
  pub bug_report_url : Text

abbrev pub empty : OsRelease
empty = record {
  ansi_color = [];
  name = [];
  version = [];
  variant = [];
  variant_id = [];
  id = [];
  id_like = [];
  pretty_name = [];
  version_id = [];
  home_url = [];
  support_url = [];
  bug_report_url = [];
}

-- All but the last byte.
abbrev pub but_last : Text → Text
but_last [] = []
but_last (c ∷ []) = []
but_last (c ∷ d ∷ s) = c ∷ but_last (d ∷ s)

-- `val[1 : len(val)-1]` after an opening quote. `none` is the panic of a slice whose end lies
-- before its start, on a value that is one quote and no more.
abbrev pub unquoted : Text → Option Text
unquoted [] = none
unquoted (c ∷ s) = some (but_last (c ∷ s))

unfoldable pub strip_quotes : Text → Option Text
strip_quotes [] = some []
strip_quotes (c ∷ s) = if c == b'"' then unquoted s else some (c ∷ s)

-- A key and a value, or the error of a line that does not split into two.
pub data Line : Type 0 where
  pair : Text → Text → Line
  invalid : ℕ → Line

abbrev pub as_pair : Text → Option Text → Option Line
as_pair key none = none
as_pair key (some val) = some (pair key val)

abbrev pub of_parts : List Text → Option Line
of_parts (key ∷ val ∷ []) = as_pair key (strip_quotes val)
of_parts vals = some (invalid (length vals))

unfoldable pub parse_line : Text → Option Line
unfolding strip_quotes
parse_line [] = some (pair [] [])
parse_line (c ∷ s) = of_parts (split (c ∷ s) b'=')

-- The fields are tried in the order of the struct. `none` stands for the error of a key that no
-- field has.
unfoldable pub set_if_possible : Text → Text → OsRelease → Option OsRelease
set_if_possible key val osr =
    if text_eq key (codes "ANSI_COLOR")
    then some (record osr { ansi_color = val })
    else if text_eq key (codes "NAME")
    then some (record osr { name = val })
    else if text_eq key (codes "VERSION")
    then some (record osr { version = val })
    else if text_eq key (codes "VARIANT")
    then some (record osr { variant = val })
    else if text_eq key (codes "VARIANT_ID")
    then some (record osr { variant_id = val })
    else if text_eq key (codes "ID")
    then some (record osr { id = val })
    else if text_eq key (codes "ID_LIKE")
    then some (record osr { id_like = val })
    else if text_eq key (codes "PRETTY_NAME")
    then some (record osr { pretty_name = val })
    else if text_eq key (codes "VERSION_ID")
    then some (record osr { version_id = val })
    else if text_eq key (codes "HOME_URL")
    then some (record osr { home_url = val })
    else if text_eq key (codes "SUPPORT_URL")
    then some (record osr { support_url = val })
    else if text_eq key (codes "BUG_REPORT_URL")
    then some (record osr { bug_report_url = val })
    else none

-- An error of either step is logged, and the line is skipped.
unfoldable pub read_line : Line → OsRelease → OsRelease
unfolding set_if_possible
read_line (invalid n) osr = osr
read_line (pair key val) osr = elim (set_if_possible key val osr) [ none ↦ osr | some osr' ↦ osr' ]

-- `none` is a panic in one of the lines.
unfoldable pub parse_lines : List Text → OsRelease → Option OsRelease
unfolding parse_line read_line
parse_lines [] osr = some osr
parse_lines (text ∷ rest) osr = elim (parse_line text) [
  | none ↦ none
  | some line ↦ parse_lines rest (read_line line osr)
]

-- Lines are as long as they are; bufio.Scanner ends silently at one of more than 64 KiB.
unfoldable pub new_os_release : Text → Option OsRelease
unfolding parse_lines
new_os_release contents = parse_lines (scan_lines contents) empty
