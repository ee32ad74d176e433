-- ===== src/Rpc/Flags.antt =====
-- libmachine/drivers/rpc/server_driver.go: the values of the command line, as a driver reads them.
use p2box.Base.{ℤ, Bool, false, String, List, [], Option}
use p2box.Drivers.{DriverOptions}
use p2box.Drivers.Check.{FlagValue, as_string, as_slice, as_int, as_bool, or_else}

-- A key that is not there gives `nil`, which is of none of the kinds.
pub record RpcFlags : Type 0 where
  pub values : String → Option FlagValue

module _ (r : RpcFlags) where
  unfoldable pub flags_string : String → String
  flags_string key = or_else (as_string (r.values key)) ""

  unfoldable pub flags_string_slice : String → List String
  flags_string_slice key = or_else (as_slice (r.values key)) []

  unfoldable pub flags_int : String → ℤ
  flags_int key = or_else (as_int (r.values key)) (ℤ.pos 0)

  unfoldable pub flags_bool : String → Bool
  flags_bool key = or_else (as_bool (r.values key)) false

  -- `RPCFlags` is a `DriverOptions`.
  abbrev pub rpc_options : {W : Type 0} → DriverOptions W
  rpc_options = record {
    string = λ key w. (flags_string key, w);
    string_slice = λ key w. (flags_string_slice key, w);
    int = λ key w. (flags_int key, w);
    bool = λ key w. (flags_bool key, w);
  }
