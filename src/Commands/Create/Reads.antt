-- ===== src/Commands/Create/Reads.antt =====
-- What the driver reads of the command line.
use p2box.Base.{
  eq_iff, inl, inr, false, Bool, String, List, [], ◌∷◌, Option, none, some, str_eq, ◌||◌, ◌≡◌, refl,
  ap, sym, subst, if◌then◌else◌, Bool-cases,
}
use p2box.Commands.Create.Values.{
  put_value, supplied, put_given, get_driver_opts, CommandLine, put_defaults, put_supplied,
  getter_or, default_value,
}
use p2box.Drivers.{Flag, flag_name}
use p2box.Drivers.Check.{FlagValue}

abbrev pub among : String → List String → Bool
among key [] = false
among key (name ∷ names) = str_eq name key || among key names

-- The default of the last flag of the name.
abbrev pub last_default : String → List Flag → Option FlagValue → Option FlagValue
last_default key [] other = other
last_default key (f ∷ flags) other =
    last_default key flags (if str_eq (flag_name f) key then some (default_value f) else other)

-- The value of a flag: what the command line supplies for it, if it names it, and its default.
abbrev pub value_of : CommandLine → List Flag → String → Option FlagValue
value_of c flags key =
    if among key c.flag_names
    then getter_or (supplied c key) (last_default key flags none)
    else last_default key flags none

put_defaults-last_default :
    (key : String) (flags : List Flag) (values : String → Option FlagValue)
    → put_defaults flags values key ≡ last_default key flags (values key)
unfolding put_defaults
put_defaults-last_default key [] values = refl
put_defaults-last_default key (f ∷ flags) values =
    put_defaults-last_default key flags (put_value (flag_name f) (default_value f) values)

getter_or_again : (a b : Option FlagValue) → getter_or a (getter_or a b) ≡ getter_or a b
getter_or_again none b = refl
getter_or_again (some v) b = refl

put_supplied-eq :
    (key : String) (a : Option FlagValue) (values : String → Option FlagValue)
    → put_supplied key a values key ≡ getter_or a (values key)
put_supplied-eq key none values = refl
put_supplied-eq key (some v) values = rw ((eq_iff key key).1 refl) refl

put_supplied-ne :
    (name key : String) (a : Option FlagValue) (values : String → Option FlagValue)
    → str_eq name key ≡ false
    → put_supplied name a values key ≡ values key
put_supplied-ne name key none values h = refl
put_supplied-ne name key (some v) values h = rw h refl

module _ (c : CommandLine) (key : String) where
  given_or : List String → Option FlagValue → Option FlagValue
  given_or names v = if among key names then getter_or (supplied c key) v else v

  given_or_same :
      (names : List String) (values : String → Option FlagValue)
      → given_or names (put_supplied key (supplied c key) values key)
        ≡ getter_or (supplied c key) (values key)
  unfolding given_or
  given_or_same names values = elim (Bool-cases (among key names)) [
    | inl e ↦
        rw (put_supplied-eq key (supplied c key) values, e)
          (getter_or_again (supplied c key) (values key))
    | inr e ↦ rw e (put_supplied-eq key (supplied c key) values)
  ]

  -- The loop over the names gives each of them the value that the command line has for it.
  put_given-given_or :
      (names : List String) (values : String → Option FlagValue)
      → put_given c names values key ≡ given_or names (values key)
  unfolding put_given given_or
  put_given-given_or [] values = refl
  put_given-given_or (name ∷ names) values = elim (Bool-cases (str_eq name key)) [
    | inl e ↦
        rw (put_given-given_or names (put_supplied name (supplied c name) values), e)
          (subst
            (λ n.
              given_or names (put_supplied n (supplied c n) values key)
              ≡ getter_or (supplied c key) (values key))
            (sym ((eq_iff name key).0 e)) (given_or_same names values))
    | inr e ↦
        rw (put_given-given_or names (put_supplied name (supplied c name) values), e)
          (ap (given_or names) (put_supplied-ne name key (supplied c name) values e))
  ]

-- The options that reach the driver hold for every flag the value of the command line where it
-- names the flag and has one, and else the registered default; the order of the names on the
-- command line does not matter.
pub get_driver_opts-value_of :
    (c : CommandLine) (flags : List Flag) (key : String)
    → (get_driver_opts c flags).values key ≡ value_of c flags key
unfolding get_driver_opts given_or
get_driver_opts-value_of c flags key =
    rw (sym (put_defaults-last_default key flags (λ k. none)))
      (put_given-given_or c key c.flag_names (put_defaults flags (λ k. none)))
