-- ===== src/Ssh.antt =====
-- libmachine/ssh/client.go: the arguments of the external ssh client, and libmachine/host/host.go
-- where it asks for one.
pub mod Keys
use Prim.Native.Nat.{bit_and}
use p2box.Base.{
  ◌≡◌, ◌⊎◌, ℕ, ℤ, Bool, true, String, List, [], ◌∷◌, ◌++◌, ◌<>◌, ◌==◌, not, str_eq, if◌then◌else◌,
}
use p2box.Go.{message, Result, ok, err, Go, lift, ◌>>=◌}
use p2box.Drivers.{Auth, Driver, call, auth_of_key_path}

pub record ExternalClient : Type 0 where
  pub base_args : List String
  pub binary_path : String

abbrev pub base_ssh_args : List String
base_ssh_args =
    "-F" ∷ "/dev/null" ∷ "-o" ∷ "ConnectionAttempts=3" ∷ "-o" ∷ "ConnectTimeout=10" ∷ "-o"
    ∷ "ControlMaster=no" ∷ "-o" ∷ "ControlPath=none" ∷ "-o" ∷ "LogLevel=quiet" ∷ "-o"
    ∷ "PasswordAuthentication=no" ∷ "-o" ∷ "ServerAliveInterval=60" ∷ "-o"
    ∷ "StrictHostKeyChecking=no" ∷ "-o" ∷ "UserKnownHostsFile=/dev/null" ∷ []

-- The permission bits 0400 and 0077.
abbrev pub is_readable : ℕ → Bool
is_readable perm = not (bit_and perm 256 == 0)

abbrev pub is_private : ℕ → Bool
is_private perm = bit_and perm 63 == 0

-- `permissions` is the permission bits that `os.Stat` of a file reports, `decimal` the verb "%d".
module _ (permissions : String → Result ℕ) (is_windows : Bool) (decimal : ℤ → String) where
  -- The text of the last error leaves out the permissions, which the code prints.
  abbrev pub checked_key : String → ℕ → Result (Unit {0})
  checked_key key perm =
      if is_windows
      then ok tt
      else if not (is_readable perm)
      then err (message ("'" <> (key <> "' is not readable")))
      else if not (is_private perm)
      then err (message ("permissions for '" <> (key <> "' are too open")))
      else ok tt

  abbrev pub key_check : String → Result ℕ → Result (Unit {0})
  key_check key (err e) = err e
  key_check key (ok perm) = checked_key key perm

  abbrev pub onto_keys : String → Result (Unit {0}) → Result (List String) → Result (List String)
  onto_keys key (err e) later = err e
  onto_keys key (ok u) (err e) = err e
  onto_keys key (ok u) (ok args) = ok ("-i" ∷ key ∷ args)

  -- The loop over the keys: the first one that may not be used ends it.
  unfoldable pub key_args : List String → Result (List String)
  key_args [] = ok []
  key_args (key ∷ keys) =
      let later = key_args keys in
      if str_eq key "" then later else onto_keys key (key_check key (permissions key)) later

  abbrev pub identities_only : List String → List String
  identities_only [] = []
  identities_only (key ∷ keys) = "-o" ∷ "IdentitiesOnly=yes" ∷ []

  abbrev pub client_with :
      String → String → String → ℤ → List String → Result (List String) → Result ExternalClient
  client_with ssh_binary_path user host port keys (err e) = err e
  client_with ssh_binary_path user host port keys (ok args) = ok (record {
    base_args =
        base_ssh_args
        ++ ((user <> ("@" <> host))
            ∷ (identities_only keys ++ (args ++ ("-p" ∷ decimal port ∷ []))));
    binary_path = ssh_binary_path;
  })

  unfoldable pub new_external_client : String → String → String → ℤ → Auth → Result ExternalClient
  new_external_client ssh_binary_path user host port auth =
      client_with ssh_binary_path user host port auth.keys (key_args auth.keys)

  -- `StandardSSHClientCreator.CreateExternalSSHClient`; `look_path` is `exec.LookPath("ssh")`.
  module _ {W : Type 0} (look_path : Go W String) (d : Driver W) where
    unfoldable pub create_external_ssh_client : Go W ExternalClient
    create_external_ssh_client = do
      ssh_binary_path ← look_path
      addr ← d.get_ssh_hostname
      port ← d.get_ssh_port
      auth ← auth_of_key_path d
      username ← call d.get_ssh_username
      lift (new_external_client ssh_binary_path username addr port auth)

    unfoldable pub create_external_root_ssh_client : Go W ExternalClient
    create_external_root_ssh_client = do
      ssh_binary_path ← look_path
      addr ← d.get_ssh_hostname
      port ← d.get_ssh_port
      auth ← auth_of_key_path d
      lift (new_external_client ssh_binary_path "root" addr port auth)
