-- ===== src/Provision/Release/Panic.antt =====
-- The inputs on which the reader of /etc/os-release panics.
use p2box.Base.{
  ◌≡◌, ◌⊎◌, inl, inr, refl, Text, Lacks, split-append, List, [], ◌∷◌, ◌++◌, none, scan_lines,
  Option-cases,
}
use p2box.Provision.Release.{OsRelease, empty, parse_line, read_line, parse_lines, new_os_release}

-- KEY=" with nothing behind the quote
abbrev pub lone_quote : Text → Text
lone_quote key = key ++ (b'=' ∷ b'"' ∷ [])

abbrev pub IsAmong : Text → List Text → Type 0
IsAmong line [] = ⊥
IsAmong line (l ∷ ls) = (l ≡ line) ⊎ IsAmong line ls

parse_line-lone_quote : (key : Text) → Lacks key b'=' → parse_line (lone_quote key) ≡ none
unfolding parse_line
parse_line-lone_quote [] h = refl
parse_line-lone_quote (c ∷ key) h = rw (split-append key (b'"' ∷ []) b'=' h.1, h.0)

parse_lines-IsAmong :
    (key : Text) (ls : List Text) (osr : OsRelease)
    → Lacks key b'='
    → IsAmong (lone_quote key) ls
    → parse_lines ls osr ≡ none
unfolding parse_lines
parse_lines-IsAmong key [] osr h m = absurd m
parse_lines-IsAmong key (l ∷ ls) osr h (inl e) = rw (e, parse_line-lone_quote key h, parse_lines)
parse_lines-IsAmong key (l ∷ ls) osr h (inr m) = elim (Option-cases (parse_line l)) [
  | inl e ↦ rw (e, parse_lines)
  | inr (line, e) ↦ rw (e, parse_lines) (parse_lines-IsAmong key ls (read_line line osr) h m)
]

-- A file with a line that is a key, a `=` and one double quote makes the reader panic, whatever
-- its other lines are.
pub new_os_release_panics :
    (contents key : Text)
    → Lacks key b'='
    → IsAmong (lone_quote key) (scan_lines contents)
    → new_os_release contents ≡ none
unfolding new_os_release
new_os_release_panics contents key h m = parse_lines-IsAmong key (scan_lines contents) empty h m
