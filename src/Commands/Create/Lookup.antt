-- ===== src/Commands/Create/Lookup.antt =====
-- commands/create.go: the name of the driver, read from the arguments before they are parsed, and
-- the flags that the create command has for a driver.
use p2box.Base.{
  ℤ, Text, codes, String, List, [], ◌∷◌, ◌++◌, Option, none, some, text_eq, ◌||◌, contains,
  has_prefix, split, get_or, if◌then◌else◌,
}
use p2box.Drivers.{Flag, string_flag, string_slice_flag, int_flag, bool_flag}

-- flagName[1:3]
abbrev pub flag_prefix : Text → Text
flag_prefix (a ∷ b ∷ c ∷ s) = b ∷ c ∷ []
flag_prefix s = []

-- format '--driver=foo' or '-d=foo'
abbrev pub value_after : Text → Text → Option Text
value_after flag_name arg =
    if has_prefix arg (flag_prefix flag_name ++ (b'=' ∷ []))
      || has_prefix arg (flag_name ++ (b'=' ∷ []))
    then some (get_or (split arg b'=') 1 [])
    else none

-- format '--driver foo' or '-d foo', where another argument follows
abbrev pub value_behind : List Text → Option Text → Option Text
value_behind [] other = other
value_behind (next ∷ rest) other = some next

abbrev pub hack_at : Text → Text → List Text → Option Text
hack_at flag_name arg rest =
    if contains arg (flag_prefix flag_name)
    then (if text_eq arg (flag_prefix flag_name) || text_eq arg flag_name
        then value_behind rest (value_after flag_name arg)
        else value_after flag_name arg)
    else none

abbrev pub first_value : Option Text → Text → Text
first_value (some v) others = v
first_value none others = others

-- `args` is os.Args.
unfoldable pub flag_hack_lookup : Text → List Text → Text
flag_hack_lookup flag_name [] = []
flag_hack_lookup flag_name (arg ∷ rest) =
    first_value (hack_at flag_name arg rest) (flag_hack_lookup flag_name rest)

abbrev pub or_text : Text → Text → Text
or_text [] other = other
or_text (c ∷ s) other = c ∷ s

-- The driver whose flags `cmdCreateOuter` asks for; `machine_driver` is MACHINE_DRIVER.
unfoldable pub outer_driver_name : Text → List Text → Text
outer_driver_name machine_driver args =
    or_text (flag_hack_lookup (codes "--driver") args) (or_text machine_driver (codes "virtualbox"))

-- cli.StringFlag, cli.StringSliceFlag, cli.IntFlag and cli.BoolFlag
pub data CliFlag : Type 0 where
  -- name, environment variable, usage, and value where the flag has one
  cli_string_flag : String → String → String → String → CliFlag
  cli_string_slice_flag : String → String → String → List String → CliFlag
  cli_int_flag : String → String → String → ℤ → CliFlag
  cli_bool_flag : String → String → String → CliFlag

abbrev pub cli_flag_of : Flag → CliFlag
cli_flag_of (bool_flag name usage env_var) = cli_bool_flag name env_var usage
cli_flag_of (int_flag name usage env_var value) = cli_int_flag name env_var usage value
cli_flag_of (string_flag name usage env_var value) = cli_string_flag name env_var usage value
cli_flag_of (string_slice_flag name usage env_var value) =
    cli_string_slice_flag name env_var usage []

unfoldable pub convert_mcn_flags_to_cli_flags : List Flag → List CliFlag
convert_mcn_flags_to_cli_flags [] = []
convert_mcn_flags_to_cli_flags (f ∷ mcn_flags) =
    cli_flag_of f ∷ convert_mcn_flags_to_cli_flags mcn_flags
