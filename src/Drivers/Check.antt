-- ===== src/Drivers/Check.antt =====
-- libmachine/drivers/check.go: the options that a test hands to a driver, and the flags that the
-- driver reads as another kind than it registered.
pub mod Reads
use p2box.Base.{
  ℤ, Bool, true, false, String, List, [], ◌∷◌, ◌++◌, Option, none, some, str_eq, if◌then◌else◌,
}
use p2box.Drivers.{
  Flag, string_flag, string_slice_flag, int_flag, bool_flag, flag_name, DriverOptions,
}

-- A value of `interface{}`, of one of the kinds that are asked for or of none of them.
pub data FlagValue : Type 0 where
  a_string : String → FlagValue
  a_slice : List String → FlagValue
  an_int : ℤ → FlagValue
  a_bool : Bool → FlagValue
  another : FlagValue

pub record CheckDriverOptions : Type 0 where
  pub flags_values : String → Option FlagValue
  pub create_flags : List Flag
  pub invalid_flags : List String

abbrev pub add_invalid : String → CheckDriverOptions → CheckDriverOptions
add_invalid name o = record o { invalid_flags = o.invalid_flags ++ (name ∷ []) }

-- flag.(mcnflag.StringFlag) and the `Value` of the flag, and so for the other kinds.
abbrev pub string_default : Flag → Option String
string_default (string_flag _ _ _ value) = some value
string_default _ = none

abbrev pub slice_default : Flag → Option (List String)
slice_default (string_slice_flag _ _ _ value) = some value
slice_default _ = none

abbrev pub int_default : Flag → Option ℤ
int_default (int_flag _ _ _ value) = some value
int_default _ = none

abbrev pub is_bool_flag : Flag → Bool
is_bool_flag (bool_flag _ _ _) = true
is_bool_flag _ = false

-- o.FlagsValues[key].(string), and so for the other kinds.
abbrev pub as_string : Option FlagValue → Option String
as_string (some (a_string s)) = some s
as_string _ = none

abbrev pub as_slice : Option FlagValue → Option (List String)
as_slice (some (a_slice s)) = some s
as_slice _ = none

abbrev pub as_int : Option FlagValue → Option ℤ
as_int (some (an_int n)) = some n
as_int _ = none

abbrev pub as_bool : Option FlagValue → Option Bool
as_bool (some (a_bool b)) = some b
as_bool _ = none

module _ {A : Type 0} where
  abbrev pub or_else : Option A → A → A
  or_else none a = a
  or_else (some b) a = b

  -- A flag of another kind is noted, and its value is the zero value `z` of the kind.
  abbrev pub read_flag :
      (Flag → Option A)
      → (Option FlagValue → Option A)
      → A
      → String
      → Flag
      → CheckDriverOptions
      → A × CheckDriverOptions
  read_flag default given z key flag o = elim (default flag) [
    | some value ↦ (or_else (given (o.flags_values key)) value, o)
    | none ↦ (or_else (given (o.flags_values key)) z, add_invalid (flag_name flag) o)
  ]

  -- The loop over the flags, which ends at the first one of the name.
  unfoldable pub first_flag :
      (Flag → Option A)
      → (Option FlagValue → Option A)
      → A
      → String
      → List Flag
      → CheckDriverOptions
      → A × CheckDriverOptions
  first_flag default given z key [] o = (z, o)
  first_flag default given z key (flag ∷ flags) o =
      let others = first_flag default given z key flags o in
      if str_eq (flag_name flag) key then read_flag default given z key flag o else others

unfoldable pub string : String → CheckDriverOptions → String × CheckDriverOptions
string key o = first_flag string_default as_string "" key o.create_flags o

unfoldable pub string_slice : String → CheckDriverOptions → List String × CheckDriverOptions
string_slice key o = first_flag slice_default as_slice [] key o.create_flags o

unfoldable pub int : String → CheckDriverOptions → ℤ × CheckDriverOptions
int key o = first_flag int_default as_int (ℤ.pos 0) key o.create_flags o

-- The loop of `Bool` does not end at the first flag of the name.
abbrev pub note_other_kinds : String → List Flag → CheckDriverOptions → CheckDriverOptions
note_other_kinds key [] o = o
note_other_kinds key (flag ∷ flags) o =
    let o' =
      if str_eq (flag_name flag) key
      then (if is_bool_flag flag then o else add_invalid (flag_name flag) o)
      else o in
    note_other_kinds key flags o'

unfoldable pub bool : String → CheckDriverOptions → Bool × CheckDriverOptions
bool key o = (or_else (as_bool (o.flags_values key)) false, note_other_kinds key o.create_flags o)

-- `CheckDriverOptions` is a `DriverOptions`.
abbrev pub check_options : DriverOptions CheckDriverOptions
check_options = record { string = string; string_slice = string_slice; int = int; bool = bool }
