-- ===== src/Provision/Release/RoundTrip.antt =====
-- Writing the values of an /etc/os-release file and reading them back.
use p2box.Base.{
  ◌&&◌, Lacks-lacks, lacks, true, Bool, scan_lines, scan_lines-append, drop_return, ◌==◌, false,
  ◌∙◌, ℕ, ◌≡◌, refl, Text, codes, Lacks, Lacks-append, split-Lacks, split-append, List, [], ◌∷◌,
  ◌++◌, some, arith,
}
use mathlib.Core.Path.{ap₂}
use mathlib.Core.List.{append_assoc}
use p2box.Provision.Release.{
  OsRelease, empty, pair, but_last, unquoted, parse_line, read_line, parse_lines, new_os_release,
}

-- One assignment of the file: KEY="value"
abbrev pub assignment : Text → Text → Text
assignment key val = key ++ (b'=' ∷ b'"' ∷ (val ++ (b'"' ∷ [])))

but_last-append : (val : Text) (c : ℕ) → but_last (val ++ (c ∷ [])) ≡ val
but_last-append [] c = refl
but_last-append (a ∷ []) c = refl
but_last-append (a ∷ b ∷ val) c = rw (but_last-append (b ∷ val) c)

unquoted-append : (val : Text) (c : ℕ) → unquoted (val ++ (c ∷ [])) ≡ some val
unquoted-append [] c = refl
unquoted-append (a ∷ val) c = rw (but_last-append (a ∷ val) c)

-- A line KEY="value" is read as its key and its value, if neither has a `=`.
pub parse_line-assignment :
    (c : ℕ) (key val : Text)
    → Lacks (c ∷ key) b'='
    → Lacks val b'='
    → parse_line (assignment (c ∷ key) val) ≡ some (pair (c ∷ key) val)
unfolding parse_line
parse_line-assignment c key val hk hv = rw (
  split-append key (b'"' ∷ (val ++ (b'"' ∷ []))) b'=' hk.1,
  split-Lacks (b'"' ∷ (val ++ (b'"' ∷ []))) b'='
      (refl, Lacks-append val (b'"' ∷ []) b'=' hv (refl, tt)),
  hk.0,
  unquoted-append val b'"',
)

-- A value that fits on its line.
abbrev pub IsPlain : Text → Type 0
IsPlain val = Lacks val b'=' × Lacks val b'\n'

-- A key that can be told from an empty line.
abbrev IsKey : Text → Type 0
IsKey [] = ⊥
IsKey (c ∷ key) = IsPlain (c ∷ key)

abbrev is_key : Text → Bool
is_key [] = false
is_key (c ∷ key) = lacks (c ∷ key) b'=' && lacks (c ∷ key) b'\n'

IsKey-is_key : (key : Text) → is_key key ≡ true → IsKey key
IsKey-is_key [] h = cc
IsKey-is_key (c ∷ key) h =
    (Lacks-lacks (c ∷ key) b'=' (ground arith), Lacks-lacks (c ∷ key) b'\n' (ground arith))

abbrev Pair : Type 0
Pair = Text × Text

abbrev AllPlain : List Pair → Type 0
AllPlain [] = Unit {0}
AllPlain ((key, val) ∷ ps) = IsKey key × IsPlain val × AllPlain ps

abbrev pub write_lines : List (Text × Text) → Text
write_lines [] = []
write_lines ((key, val) ∷ ps) = assignment key val ++ (b'\n' ∷ write_lines ps)

abbrev assignments : List Pair → List Text
assignments [] = []
assignments ((key, val) ∷ ps) = assignment key val ∷ assignments ps

abbrev read_pairs : List Pair → OsRelease → OsRelease
read_pairs [] osr = osr
read_pairs ((key, val) ∷ ps) osr = read_pairs ps (read_line (pair key val) osr)

drop_return-append :
    (s : Text) (c : ℕ) → (c == 13) ≡ false → drop_return (s ++ (c ∷ [])) ≡ s ++ (c ∷ [])
drop_return-append [] c h = rw h
drop_return-append (a ∷ []) c h = rw h
drop_return-append (a ∷ b ∷ s) c h = rw (drop_return-append (b ∷ s) c h)

assignment-append :
    (key val : Text) → assignment key val ≡ (key ++ (b'=' ∷ b'"' ∷ val)) ++ (b'"' ∷ [])
assignment-append key val = rw append_assoc

drop_return-assignment : (key val : Text) → drop_return (assignment key val) ≡ assignment key val
drop_return-assignment key val = rw (assignment-append key val) (drop_return-append _ b'"' refl)

Lacks-assignment : (key val : Text) → IsKey key → IsPlain val → Lacks (assignment key val) b'\n'
Lacks-assignment (c ∷ key) val hk hv =
    Lacks-append (c ∷ key) _ b'\n' hk.1 (refl, (refl, Lacks-append val _ b'\n' hv.1 (refl, tt)))
Lacks-assignment [] val hk hv = absurd hk

scan_lines-write_lines :
    (ps : List Pair) → AllPlain ps → scan_lines (write_lines ps) ≡ assignments ps
scan_lines-write_lines [] h = refl
scan_lines-write_lines ((key, val) ∷ ps) (hk, hv, h) =
    scan_lines-append (assignment key val) (write_lines ps) (Lacks-assignment key val hk hv)
    ∙ ap₂ (λ (p : Text) (q : List Text). p ∷ q) (drop_return-assignment key val)
        (scan_lines-write_lines ps h)

parse_lines-assignments :
    (ps : List Pair) (osr : OsRelease)
    → AllPlain ps
    → parse_lines (assignments ps) osr ≡ some (read_pairs ps osr)
unfolding parse_lines
parse_lines-assignments [] osr h = refl
parse_lines-assignments (([], val) ∷ ps) osr h = absurd h.0
parse_lines-assignments ((c ∷ key, val) ∷ ps) osr (hk, hv, h) =
    rw (parse_line-assignment c key val hk.0 hv.0, parse_lines)
      (parse_lines-assignments ps (read_line (pair (c ∷ key) val) osr) h)

-- The values of an os-release file under their keys, in the order of the struct.
abbrev pub entries : OsRelease → List (Text × Text)
entries osr =
    (codes "ANSI_COLOR", osr.ansi_color)
    ∷ (codes "NAME", osr.name)
    ∷ (codes "VERSION", osr.version)
    ∷ (codes "VARIANT", osr.variant)
    ∷ (codes "VARIANT_ID", osr.variant_id)
    ∷ (codes "ID", osr.id)
    ∷ (codes "ID_LIKE", osr.id_like)
    ∷ (codes "PRETTY_NAME", osr.pretty_name)
    ∷ (codes "VERSION_ID", osr.version_id)
    ∷ (codes "HOME_URL", osr.home_url)
    ∷ (codes "SUPPORT_URL", osr.support_url)
    ∷ (codes "BUG_REPORT_URL", osr.bug_report_url)
    ∷ []

-- Every value fits on its line.
pub record IsWritable (osr : OsRelease) : Type 0 where
  pub ansi_color : IsPlain osr.ansi_color
  pub name : IsPlain osr.name
  pub version : IsPlain osr.version
  pub variant : IsPlain osr.variant
  pub variant_id : IsPlain osr.variant_id
  pub id : IsPlain osr.id
  pub id_like : IsPlain osr.id_like
  pub pretty_name : IsPlain osr.pretty_name
  pub version_id : IsPlain osr.version_id
  pub home_url : IsPlain osr.home_url
  pub support_url : IsPlain osr.support_url
  pub bug_report_url : IsPlain osr.bug_report_url

AllPlain-entries : (osr : OsRelease) → IsWritable osr → AllPlain (entries osr)
AllPlain-entries osr h = (
  IsKey-is_key (codes "ANSI_COLOR") refl,
  h.ansi_color,
  (
    IsKey-is_key (codes "NAME") refl,
    h.name,
    (
      IsKey-is_key (codes "VERSION") refl,
      h.version,
      (
        IsKey-is_key (codes "VARIANT") refl,
        h.variant,
        (
          IsKey-is_key (codes "VARIANT_ID") refl,
          h.variant_id,
          (
            IsKey-is_key (codes "ID") refl,
            h.id,
            (
              IsKey-is_key (codes "ID_LIKE") refl,
              h.id_like,
              (
                IsKey-is_key (codes "PRETTY_NAME") refl,
                h.pretty_name,
                (
                  IsKey-is_key (codes "VERSION_ID") refl,
                  h.version_id,
                  (
                    IsKey-is_key (codes "HOME_URL") refl,
                    h.home_url,
                    (
                      IsKey-is_key (codes "SUPPORT_URL") refl,
                      h.support_url,
                      (IsKey-is_key (codes "BUG_REPORT_URL") refl, h.bug_report_url, tt),
                    ),
                  ),
                ),
              ),
            ),
          ),
        ),
      ),
    ),
  ),
)

-- A file that assigns every value in quotes is read back as those values, if no value has a `=`
-- or a line feed.
pub new_os_release-write_lines :
    (osr : OsRelease) → IsWritable osr → new_os_release (write_lines (entries osr)) ≡ some osr
unfolding new_os_release
new_os_release-write_lines osr h =
    rw (scan_lines-write_lines (entries osr) (AllPlain-entries osr h))
      (parse_lines-assignments (entries osr) empty (AllPlain-entries osr h))
