-- ===== src/Persist/Stored.antt =====
-- libmachine/host/migrate.go: a host as it is stored, and reading a configuration of any version.
use p2box.Base.{ℤ, ℕ, Bool, true, false, String, Option, none, some, if◌then◌else◌, ltb, ◌==◌}
use p2box.Go.{Error, message, wrap, Result, ok, err, Go, lift, ◌>>=◌}
use p2box.Host.{Options, deref}

-- A host as the store sees it: the driver is its JSON text. `none` stands for a nil pointer, and
-- for the nil slice in `raw_driver`.
pub record StoredHost : Type 0 where
  pub config_version : ℕ
  pub driver : Option String
  pub driver_name : String
  pub host_options : Option Options
  pub name : String
  pub raw_driver : Option String

-- The zero value of `Options`.
abbrev pub zero_options : Options
zero_options = record {
  driver = "";
  memory = ℤ.pos 0;
  disk = ℤ.pos 0;
  engine_options = none;
  auth_options = none;
}

pub record Metadata : Type 0 where
  pub config_version : ℕ
  pub driver_name : String
  pub host_options : Options

-- encoding/json on the types of the store: `json.MarshalIndent` of a host, and `json.Unmarshal`
-- into the metadata and into a host that is there already. `none` is an error.
pub record Codec : Type 0 where
  pub encode : StoredHost → Result String
  pub decode_metadata : String → Option Metadata
  pub decode_host : String → StoredHost → Option StoredHost

-- version.ConfigVersion
abbrev pub current_version : ℕ
current_version = 3

abbrev pub config_from_future : Error
config_from_future =
    message "config version is from the future -- you should upgrade your Podman Machine client"

-- Whether a migration was performed comes beside the host.
abbrev pub Migrated : Type 0
Migrated = StoredHost × Bool

module _ (codec : Codec) where
  abbrev decoded : Option Metadata → Result Metadata
  decoded none = err (message "json: cannot unmarshal")
  decoded (some m) = ok m

  abbrev read_current : Option StoredHost → Result Migrated
  read_current none =
      err (wrap "Error unmarshalling most recent host version" (message "json: cannot unmarshal"))
  read_current (some h) = ok (record h { raw_driver = h.driver }, false)

  -- The loop over the versions below the current one has no step for any of them: it counts
  -- `ConfigVersion` up, and no field is read from the file.
  abbrev count_up : StoredHost → Migrated
  count_up h = (record h { config_version = current_version; raw_driver = none }, true)

  abbrev by_version : StoredHost → String → ℕ → Result Migrated
  by_version h text version =
      if ltb current_version version
      then err config_from_future
      else if version == current_version
      then read_current (codec.decode_host text h)
      else ok (count_up h)

  unfoldable pub migrate_host : {W : Type 0} → StoredHost → String → Go W Migrated
  migrate_host h text = do
    metadata ← lift (decoded (codec.decode_metadata text))
    auth ← deref metadata.host_options.auth_options
    lift (by_version h text metadata.config_version)
