-- ===== src/Commands/Create/Values.antt =====
-- commands/create.go: the values of the flags, as they are sent to the driver.
use p2box.Base.{Bool, false, String, List, [], ◌∷◌, Option, none, some, str_eq, if◌then◌else◌}
use p2box.Drivers.{Flag, string_flag, string_slice_flag, int_flag, bool_flag, flag_name}
use p2box.Drivers.Check.{FlagValue, a_string, a_slice, an_int, a_bool}
use p2box.Rpc.Flags.{RpcFlags}

-- What the commands read of the command line, which urfave/cli parses. `generic` is the value of a
-- flag whose type is a `flag.Getter`.
pub record CommandLine : Type 0 where
  pub args : List String
  pub is_set : String → Bool
  pub string : String → String
  pub string_slice : String → List String
  pub global_string : String → String
  pub flag_names : List String
  pub generic : String → Option FlagValue

-- values[name] = v
abbrev pub put_value : String → FlagValue → (String → Option FlagValue) → String → Option FlagValue
put_value name v values key = if str_eq name key then some v else values key

-- `f.Default()`, and false where it is nil.
abbrev pub default_value : Flag → FlagValue
default_value (string_flag name usage env_var value) = a_string value
default_value (string_slice_flag name usage env_var value) = a_slice value
default_value (int_flag name usage env_var value) = an_int value
default_value (bool_flag name usage env_var) = a_bool false

unfoldable pub put_defaults : List Flag → (String → Option FlagValue) → String → Option FlagValue
put_defaults [] values = values
put_defaults (f ∷ flags) values =
    put_defaults flags (put_value (flag_name f) (default_value f) values)

-- What the command line says of a flag that it names.
abbrev pub slice_if_set : CommandLine → String → Option FlagValue
slice_if_set c name = if c.is_set name then some (a_slice (c.string_slice name)) else none

abbrev pub getter_or : Option FlagValue → Option FlagValue → Option FlagValue
getter_or (some v) other = some v
getter_or none other = other

abbrev pub supplied : CommandLine → String → Option FlagValue
supplied c name = getter_or (c.generic name) (slice_if_set c name)

abbrev pub put_supplied :
    String → Option FlagValue → (String → Option FlagValue) → String → Option FlagValue
put_supplied name (some v) values = put_value name v values
put_supplied name none values = values

unfoldable pub put_given :
    CommandLine → List String → (String → Option FlagValue) → String → Option FlagValue
put_given c [] values = values
put_given c (name ∷ names) values = put_given c names (put_supplied name (supplied c name) values)

unfoldable pub get_driver_opts : CommandLine → List Flag → RpcFlags
get_driver_opts c mcn_flags = record {
  values = put_given c c.flag_names (put_defaults mcn_flags (λ key. none));
}
