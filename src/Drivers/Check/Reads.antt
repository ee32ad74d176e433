-- ===== src/Drivers/Check/Reads.antt =====
-- Reading a flag as the kind that was registered, and as another.
use p2box.Base.{
  ◌≡◌, ap, ◌∙◌, ◌++◌, ◌∷◌, [], List, String, Option, none, some, true, false, eq_iff, str_eq,
}
use p2box.Drivers.{Flag, flag_name}
use p2box.Drivers.Check.{
  FlagValue, CheckDriverOptions, or_else, read_flag, first_flag, string, as_string, string_default,
  add_invalid,
}

-- No flag of the list has the name.
abbrev pub IsUnused : String → List Flag → Type 0
IsUnused key [] = Unit
IsUnused key (flag ∷ flags) = (str_eq (flag_name flag) key ≡ false) × IsUnused key flags

first_flag-append :
    {A : Type 0} (default : Flag → Option A) (given : Option FlagValue → Option A) (z : A)
    (key : String) (before : List Flag) (flag : Flag) (after : List Flag) (o : CheckDriverOptions)
    → IsUnused key before
    → str_eq (flag_name flag) key ≡ true
    → first_flag default given z key (before ++ (flag ∷ after)) o
      ≡ read_flag default given z key flag o
unfolding first_flag
first_flag-append default given z key [] flag after o h e = rw e
first_flag-append default given z key (f ∷ before) flag after o (n, h) e =
    rw n (first_flag-append default given z key before flag after o h e)

-- A driver that reads a flag as a string gets the text that was given for it, or else the value
-- that it registered, and no flag is noted, if the first flag of that name is one for strings. If
-- it is of another kind, the flag is noted, and the value that stands in for a missing text is the
-- empty one.
pub string_reads :
    (key : String) (before after : List Flag) (flag : Flag) (o : CheckDriverOptions)
    → o.create_flags ≡ before ++ (flag ∷ after)
    → IsUnused key before
    → flag_name flag ≡ key
    → ((value : String)
        → string_default flag ≡ some value
        → string key o ≡ (or_else (as_string (o.flags_values key)) value, o))
      × (string_default flag ≡ none
          → string key o ≡ (or_else (as_string (o.flags_values key)) "", add_invalid key o))
unfolding string
string_reads key before after flag o flags unused name =
    let found : string key o ≡ read_flag string_default as_string "" key flag o =
      ap (λ fs. first_flag string_default as_string "" key fs o) flags
      ∙ first_flag-append string_default as_string "" key before flag after o unused
          ((eq_iff (flag_name flag) key).1 name) in
    ((λ value k. found ∙ rw (k, read_flag)), λ k. found ∙ rw (k, read_flag, name))
