-- ===== src/VirtualBox/Version.antt =====
-- drivers/virtualbox/vbm.go: the versions of VirtualBox that are accepted.
pub mod Accepted
use p2box.Base.{
  ℕ, ℤ, Bool, true, false, Text, split, List, [], ◌∷◌, Option, none, some, if◌then◌else◌, ◌&&◌,
  ◌||◌, ltb, leb, ◌==◌,
}
use p2box.Go.{Error, message}

abbrev pub less : ℤ → ℕ → Bool
less (ℤ.pos m) n = ltb m n
less (ℤ.negsuc m) n = true

abbrev pub equals : ℤ → ℕ → Bool
equals (ℤ.pos m) n = m == n
equals (ℤ.negsuc m) n = false

abbrev pub unsupported : Error
unsupported = message "We support Virtualbox starting with version 5"

-- `strconv.Atoi`, where `none` is an error.
module _ (atoi : Text → Option ℤ) where
  abbrev both : Option ℤ → Option ℤ → Option (ℤ × ℤ)
  both none minor = none
  both (some major) none = none
  both (some major) (some minor) = some (major, minor)

  -- Parts behind the second are not read.
  abbrev of_version_parts : List Text → Option (ℤ × ℤ)
  of_version_parts (major ∷ minor ∷ rest) = both (atoi major) (atoi minor)
  of_version_parts _ = none

  -- `none` is an error.
  unfoldable pub parse_version : Text → Option (ℤ × ℤ)
  parse_version version = of_version_parts (split version b'.')

  abbrev is_too_old : Option (ℤ × ℤ) → Bool
  is_too_old none = true
  is_too_old (some (major, minor)) = less major 4 || (equals major 4 && less minor 3)

  -- `minor <= 2` is `minor < 3`. The warning below version 5 is only logged.
  unfoldable pub check_vbox_manage_version : Text → Option Error
  check_vbox_manage_version version =
      if is_too_old (parse_version version) then some unsupported else none
