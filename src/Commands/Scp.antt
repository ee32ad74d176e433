-- ===== src/Commands/Scp.antt =====
-- commands/scp.go: the command line that copies files to and from machines.
pub mod Locations
use p2box.Base.{
  ℤ, Bool, true, false, String, Text, codes, cut, text_eq, List, [], ◌∷◌, ◌++◌, Option, none, some,
  if◌then◌else◌, str_eq, ltb, not,
}
use p2box.Go.{message, wrap, Result, ok, err, Go, pure, fail, ◌>>=◌, ◌>>◌, wrap_with}
use p2box.Drivers.{Driver, call}
use p2box.Commands.Env.Shells.{words}

abbrev pub base_scp_args : List Text
base_scp_args =
    codes "-o"
    ∷ codes "StrictHostKeyChecking=no"
    ∷ codes "-o"
    ∷ codes "UserKnownHostsFile=/dev/null"
    ∷ codes "-o"
    ∷ codes "LogLevel=quiet"
    ∷ []

-- What one argument of the command says; a host is its driver, and `none` stands for this computer.
pub record ScpInfo (W : Type 0) : Type 0 where
  pub host_info : Option (Driver W)
  pub user : Text
  pub path : Text
  pub args : List Text

-- The user and the name of the host.
abbrev pub user_and_host : Text → Option (Text × Text) → Text × Text
user_and_host host_name none = ([], host_name)
user_and_host host_name (some (user, host)) = (user, host)

abbrev is_positive : ℤ → Bool
is_positive (ℤ.pos n) = ltb 0 n
is_positive (ℤ.negsuc n) = false

-- `load` loads the driver of a host by its name, `decimal` and `quote` are the verbs "%v" and "%q".
module _ {W : Type 0} (load : Text → Go W (Driver W)) (decimal : ℤ → Text)
    (quote : Text → Text) where
  abbrev pub on_this_computer : Text → ScpInfo W
  on_this_computer path = record { host_info = none; user = []; path = path; args = [] }

  abbrev pub port_args : Result ℤ → List Text
  port_args (err e) = []
  port_args (ok port) =
      if is_positive port then codes "-o" ∷ (codes "Port=" ++ decimal port) ∷ [] else []

  abbrev pub identity_file_args : Driver W → Go W (List Text)
  identity_file_args d = do
    key_path ← call d.get_ssh_key_path
    if str_eq key_path "" then pure [] else do
      key ← call d.get_ssh_key_path
      pure (codes "-o" ∷ (codes "IdentityFile=" ++ quote (codes key)) ∷ [])

  -- The error of `GetSSHPort` stands in the result `err` and is returned at the end.
  abbrev returned : Result ℤ → ScpInfo W → Go W (ScpInfo W)
  returned (ok port) info = pure info
  returned (err e) info = fail e

  abbrev pub remote_info : Text → Text → Driver W → Go W (ScpInfo W)
  remote_info user path d w =
      let (port, w1) = d.get_ssh_port w in
      (identity_file_args d >>= λ key_args.
      returned port (record {
        host_info = some d;
        user = user;
        path = path;
        args = port_args port ++ key_args;
      }))
        w1

  abbrev pub info_at : Text → Text → Text → Go W (ScpInfo W)
  info_at user host_name path =
      if text_eq host_name (codes "localhost")
      then pure (on_this_computer path)
      else do d ← wrap_with (wrap "Error loading host") (load host_name); remote_info user path d

  abbrev pub info_of_parts : Text → Option (Text × Text) → Go W (ScpInfo W)
  info_of_parts arg none = pure (on_this_computer arg)
  info_of_parts arg (some (host_part, path)) =
      let (user, host_name) = user_and_host host_part (cut host_part b'@') in
      info_at user host_name path

  unfoldable pub get_info_for_scp_arg : Text → Go W (ScpInfo W)
  get_info_for_scp_arg host_and_path = info_of_parts host_and_path (cut host_and_path b':')

  unfoldable pub misses_explicit_ssh_key : Option (Driver W) → Go W Bool
  misses_explicit_ssh_key none = pure false
  misses_explicit_ssh_key (some d) = do key ← call d.get_ssh_key_path; pure (str_eq key "")

  abbrev user_or_default : Text → Driver W → Go W Text
  user_or_default [] d = do user ← call d.get_ssh_username; pure (codes user)
  user_or_default (c ∷ user) d = pure (c ∷ user)

  unfoldable pub generate_location_arg : Option (Driver W) → Text → Text → Go W Text
  generate_location_arg none user path = pure path
  generate_location_arg (some d) user path = do
    hostname ← d.get_ssh_hostname
    user' ← user_or_default user d
    pure (user' ++ (b'@' ∷ (codes hostname ++ (b':' ∷ path))))

  -- The keys are explicit if neither host misses one; the second is asked only then.
  abbrev identities_only : ScpInfo W → ScpInfo W → Go W (List Text)
  identities_only src dest = do
    src_misses ← misses_explicit_ssh_key src.host_info
    if src_misses then pure [] else do
      dest_misses ← misses_explicit_ssh_key dest.host_info
      pure (if dest_misses then [] else codes "-o" ∷ codes "IdentitiesOnly=yes" ∷ [])

  abbrev when : Bool → String → List Text
  when b arg = if b then codes arg ∷ [] else []

  abbrev scp_flags : Bool → Bool → Bool → List Text
  scp_flags recursive delta quiet =
      if delta then [] else codes "-3" ∷ (when recursive "-r" ++ when quiet "-q")

  -- For rsync, the arguments so far are those of its ssh.
  abbrev rsync_args : Bool → Bool → Bool → List Text → List Text
  rsync_args recursive delta quiet ssh_args =
      if delta
      then when (not quiet) "--progress"
        ++ (codes "-e" ∷ (codes "ssh " ++ words ssh_args) ∷ when recursive "-r")
      else ssh_args

  -- `look_path` is `exec.LookPath` of scp or rsync.
  unfoldable pub get_scp_cmd :
      (String → Go W Text) → Text → Text → Bool → Bool → Bool → Go W (Text × List Text)
  get_scp_cmd look_path src dest recursive delta quiet = do
    cmd_path ←
        if delta
        then wrap_with
            (λ e.
              message "You must have a copy of the rsync binary locally to use the --delta option")
            (look_path "rsync")
        else wrap_with
            (λ e. message "You must have a copy of the scp binary locally to use the scp feature")
            (look_path "scp")
    src_info ← get_info_for_scp_arg src
    dest_info ← get_info_for_scp_arg dest
    only ← identities_only src_info dest_info
    src_arg ← generate_location_arg src_info.host_info src_info.user src_info.path
    dest_arg ← generate_location_arg dest_info.host_info dest_info.user dest_info.path
    pure (
      cmd_path,
      rsync_args recursive delta quiet (
            base_scp_args
            ++ (scp_flags recursive delta quiet ++ (only ++ (src_info.args ++ dest_info.args))))
          ++ (src_arg ∷ dest_arg ∷ []),
    )
