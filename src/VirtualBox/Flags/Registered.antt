-- ===== src/VirtualBox/Flags/Registered.antt =====
-- The flags that the driver reads are those that it registers.
use p2box.Base.{◌≡◌, refl, String, List, Option, none}
use p2box.Go.{ok}
use p2box.Drivers.Check.{CheckDriverOptions, FlagValue, check_options}
use p2box.VirtualBox.Flags.{get_create_flags, set_config_from_flags, new_driver}

abbrev pub registered : (String → Option FlagValue) → List String → CheckDriverOptions
registered values invalid = record {
  flags_values = values;
  create_flags = get_create_flags;
  invalid_flags = invalid;
}

-- The driver reads every flag as the kind that it registered: whatever values are given, no flag is
-- noted as read wrongly. Where no value is given, the settings are those of a new driver, with the
-- user "tc".
pub set_config_from_flags_registered :
    (values : String → Option FlagValue) (invalid : List String)
    → ((set_config_from_flags check_options (registered values invalid)).1
        ≡ registered values invalid)
      × ((set_config_from_flags check_options (registered (λ key. none) invalid)).0
          ≡ ok (record new_driver { ssh_user = "tc" }))
unfolding set_config_from_flags p2box.Drivers.Check.string p2box.Drivers.Check.first_flag
    p2box.Drivers.Check.bool p2box.Drivers.Check.int get_create_flags
set_config_from_flags_registered values invalid = (refl, refl)
