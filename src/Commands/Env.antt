-- ===== src/Commands/Env.antt =====
-- commands/env.go: the text that configures a shell for a machine, and libmachine/shell/shell.go.
pub mod Shells
pub mod NoProxy
use p2box.Base.{
  ℤ, Bool, true, false, String, Text, codes, text_eq, contains, List, [], ◌∷◌, ◌++◌, ◌||◌, not,
  if◌then◌else◌, str_eq,
}
use p2box.Go.{Error, message, wrap, Result, ok, err, Go, pure, fail, lift, ◌>>=◌, ◌>>◌, wrap_with}
use p2box.Drivers.{call}
use p2box.Host.{Host}
use p2box.Persist.Hosts.{Store}
use p2box.Commands.{target_host}
use p2box.Commands.Env.Shells.{
  ShellConfig, empty_config, with_syntax, set_syntax, unset_syntax, words, quoted_path,
  command_line, hint_of, generate_usage_hint,
}

-- The flags of `env`.
pub record EnvFlags : Type 0 where
  pub unset : Bool
  pub varlink : Bool
  pub no_proxy : Bool
  pub shell : String

-- What the command reads of its process: the environment, the operating system, the arguments, and
-- filepath.Base.
pub record Process : Type 0 where
  pub getenv : String → String
  pub runtime_os : String
  pub os_args : List Text
  pub base_name : String → String

abbrev pub unknown_shell : Error
unknown_shell = message "Error: Unknown shell"

abbrev pub expected_one_machine : Error
expected_one_machine = message "Error: Expected one machine name as an argument"

abbrev pub improper_unset_env_args : Error
improper_unset_env_args = message "Error: Expected no machine name when the -u flag is present"

-- The host is added to the list, unless its address stands in it somewhere.
unfoldable pub with_host : Text → Text → Text
with_host [] ip = ip
with_host (c ∷ value) ip = if contains (c ∷ value) ip then c ∷ value else (c ∷ value) ++ (b',' ∷ ip)

abbrev pub at_most_one : List String → Bool
at_most_one [] = true
at_most_one (a ∷ []) = true
at_most_one (a ∷ b ∷ args) = false

module _ (p : Process) where
  -- `shell.Detect`
  unfoldable pub detect : Result String
  detect =
      if str_eq (p.getenv "SHELL") ""
      then err unknown_shell
      else ok (p.base_name (p.getenv "SHELL"))

  unfoldable pub get_shell : String → Result String
  unfolding detect
  get_shell user_shell = if not (str_eq user_shell "") then ok user_shell else detect

  unfoldable pub find_no_proxy_from_env : Text × Text
  find_no_proxy_from_env =
      if str_eq (p.getenv "no_proxy") ""
      then (codes "NO_PROXY", codes (p.getenv "NO_PROXY"))
      else (codes "no_proxy", codes (p.getenv "no_proxy"))

  -- `external_client` is `host.CreateExternalSSHClient`: the path of ssh and the arguments.
  module _ {W : Type 0} (external_client : Host W → Go W (Text × List Text)) where
    abbrev bridge_args : List Text
    bridge_args =
        codes "--"
        ∷ codes "sudo"
        ∷ codes "varlink"
        ∷ codes "-A"
        ∷ codes "\\'podman varlink \\\\\\$VARLINK_ADDRESS\\'"
        ∷ codes "bridge"
        ∷ []

    -- The user is root wherever there is an address.
    abbrev pub user_at : String → String → Text
    user_at addr user = if str_eq addr "" then codes user else codes "root"

    -- A loaded host has a driver.
    abbrev pub config_of : Bool → Host W → Text → Go W ShellConfig
    config_of false h hint = do
      user ← call h.driver.get_ssh_username
      addr ← h.driver.get_ssh_hostname
      port ← h.driver.get_ssh_port
      key ← call h.driver.get_ssh_key_path
      pure (record empty_config {
        podman_user = user_at addr user;
        podman_host = codes addr;
        podman_port = port;
        identity_file = codes key;
        usage_hint = hint;
        machine_name = codes h.name;
      })
    config_of true h hint = do
      client ← external_client h
      pure (record empty_config {
        varlink_bridge = words (client.0 ∷ (client.1 ++ bridge_args));
        usage_hint = hint;
        machine_name = codes h.name;
      })

    abbrev pub without_proxy : Bool → Host W → ShellConfig → Go W ShellConfig
    without_proxy false h c = pure c
    without_proxy true h c = do
      ip ← wrap_with (wrap "Error getting host IP") h.driver.get_ip
      pure (record c {
        no_proxy_var = find_no_proxy_from_env.0;
        no_proxy_value = with_host find_no_proxy_from_env.1 (codes ip);
      })

    abbrev for_os : ShellConfig → ShellConfig
    for_os c = if str_eq p.runtime_os "windows" then record c { compose_paths_var = true } else c

    unfoldable pub shell_cfg_set : Store W (Host W) → EnvFlags → List String → Go W ShellConfig
    shell_cfg_set api flags args = if not (at_most_one args) then fail expected_one_machine else do
      target ← target_host api args
      h ← api.load target
      user_shell ← lift (get_shell flags.shell)
      c ← config_of flags.varlink h (generate_usage_hint user_shell p.os_args)
      c' ← without_proxy flags.no_proxy h c
      pure (set_syntax user_shell (for_os c'))

  abbrev pub unset_proxy : Bool → ShellConfig → ShellConfig
  unset_proxy false c = c
  unset_proxy true c = record c {
    no_proxy_var = find_no_proxy_from_env.0;
    no_proxy_value = find_no_proxy_from_env.1;
  }

  abbrev unset_config : EnvFlags → Result String → Result ShellConfig
  unset_config flags (err e) = err e
  unset_config flags (ok user_shell) = ok (
      unset_syntax user_shell (
        unset_proxy flags.no_proxy
          (record empty_config { usage_hint = generate_usage_hint user_shell p.os_args })))

  unfoldable pub shell_cfg_unset : EnvFlags → List String → Result ShellConfig
  shell_cfg_unset flags [] = unset_config flags (get_shell flags.shell)
  shell_cfg_unset flags (arg ∷ args) = err improper_unset_env_args

-- The templates. `decimal` prints a number.
module _ (decimal : ℤ → Text) where
  abbrev pub setting : ShellConfig → String → Text → Text
  setting c name value = c.prefix ++ (codes name ++ (c.delimiter ++ (value ++ c.suffix)))

  abbrev known_hosts_part : ShellConfig → Text → Text
  known_hosts_part c [] = setting c "PODMAN_IGNORE_HOSTS" (codes "true")
  known_hosts_part c (k ∷ ks) = setting c "PODMAN_KNOWN_HOSTS" (k ∷ ks)

  abbrev no_proxy_part : ShellConfig → Text → Text
  no_proxy_part c [] = []
  no_proxy_part c (v ∷ vs) =
      c.prefix ++ ((v ∷ vs) ++ (c.delimiter ++ (c.no_proxy_value ++ c.suffix)))

  abbrev compose_part : ShellConfig → Text
  compose_part c =
      if c.compose_paths_var then setting c "COMPOSE_CONVERT_WINDOWS_PATHS" (codes "true") else []

  unfoldable pub env_text : ShellConfig → Text
  env_text c =
      setting c "PODMAN_USER" c.podman_user
      ++ (setting c "PODMAN_HOST" c.podman_host
          ++ (setting c "PODMAN_PORT" (decimal c.podman_port)
              ++ (setting c "PODMAN_IDENTITY_FILE" c.identity_file
                  ++ (known_hosts_part c c.known_hosts
                      ++ (setting c "PODMAN_MACHINE_NAME" c.machine_name
                          ++ (compose_part c
                              ++ (no_proxy_part c c.no_proxy_var ++ c.usage_hint)))))))

  unfoldable pub bridge_text : ShellConfig → Text
  bridge_text c =
      setting c "PODMAN_VARLINK_BRIDGE" c.varlink_bridge
      ++ (setting c "PODMAN_MACHINE_NAME" c.machine_name ++ c.usage_hint)

  -- `cmdEnv`, with the text that it prints.
  unfoldable pub cmd_env :
      Process
      → {W : Type 0} → (Host W → Go W (Text × List Text))
      → Store W (Host W)
      → EnvFlags
      → List String
      → Go W Text
  cmd_env p external_client api flags args = do
    c ←
        if flags.unset
        then lift (shell_cfg_unset p flags args)
        else shell_cfg_set p external_client api flags args
    pure (if flags.varlink then bridge_text c else env_text c)
