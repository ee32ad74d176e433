-- ===== src/Tests/Commands.antt =====
-- The commands env and ls, and the arguments of ssh, at concrete inputs.
use p2box.Base.{
  ℕ, inl, arith, ◌+◌, ℤ, ◌≡◌, refl, true, false, String, Text, codes, List, [], ◌∷◌, ◌++◌,
}
use p2box.Tests.Lab.{Lab, lab_driver}
use p2box.Go.{Go, pure, ok}
use p2box.Drivers.{Driver, Auth}
use p2box.VirtualBox.Disks.Filling.{Filled, zero_fill-Filled}
use mathlib.Core.List.{Perm}
use mathlib.Core.List.Perm
use p2box.State.{State, running}
use p2box.Commands.Env.{Process, EnvFlags, with_host, unset_proxy, env_text}
use p2box.Commands.Env.Shells.{ShellConfig, empty_config, unset_syntax, generate_usage_hint}
use p2box.Commands.Env.NoProxy.{HasPort0, shell_cfg_unset-HasPort0}
use p2box.Commands.Ls.Filter.{parse_filters, no_filters}
use p2box.Commands.Ls.Filter.Syntax.{
  Filter, by_driver, by_label, written_all, with_all, parse_filters-written_all,
}
use p2box.Commands.Ls.Items.{HostListItem, empty_item, sort_host_list_items_by_name}
use p2box.Commands.Ls.Items.Sorting.{
  sort_host_list_items_by_name-Perm, sort_host_list_items_by_name_loses,
}
use p2box.Ssh.{ExternalClient, new_external_client}
use p2box.Ssh.Keys.{AllPrivate, identity_args, new_external_client-AllPrivate}

abbrev process : Process
process = record {
  getenv = λ name. "";
  runtime_os = "linux";
  os_args = codes "podman-machine" ∷ codes "env" ∷ codes "-u" ∷ [];
  base_name = λ path. path;
}

abbrev flags : EnvFlags
flags = record { unset = true; varlink = false; no_proxy = false; shell = "bash" }

-- "%d" of the numbers below.
abbrev decimal : ℤ → Text
decimal n = codes "0"

abbrev unset_bash : ShellConfig
unset_bash = unset_syntax "bash" (
    unset_proxy process false
      (record empty_config { usage_hint = generate_usage_hint "bash" process.os_args }))

shell_cfg_unset-HasPort0_example :
    HasPort0 unset_bash.prefix (codes "0") unset_bash.suffix (env_text decimal unset_bash)
unfolding p2box.Commands.Env.get_shell p2box.Commands.Env.shell_cfg_unset
shell_cfg_unset-HasPort0_example =
    shell_cfg_unset-HasPort0 process flags decimal "bash" unset_bash refl refl refl refl

abbrev filters : List Filter
filters = by_driver (codes "qemu") ∷ by_label (codes "a=b") ∷ by_driver (codes "none") ∷ []

parse_filters-written_all_example :
    parse_filters (written_all filters) ≡ ok (with_all filters no_filters)
parse_filters-written_all_example = parse_filters-written_all filters

abbrev item : String → State → HostListItem
item name s = record empty_item { name = codes name; state = s }

sort_host_list_items_by_name-Perm_example :
    Perm
      (sort_host_list_items_by_name (λ names. names) (item "box" running ∷ item "dev" running ∷ []))
      (item "box" running ∷ item "dev" running ∷ [])
sort_host_list_items_by_name-Perm_example =
    sort_host_list_items_by_name-Perm (λ names. names) (λ names. Perm.refl names)
      (item "box" running ∷ item "dev" running ∷ []) (refl, (refl, tt))

box_twice_test :
    sort_host_list_items_by_name
      (λ names. names)
      (item "Box" running ∷ item "box" State.stopped ∷ [])
    ≡ item "box" State.stopped ∷ item "box" State.stopped ∷ []
unfolding sort_host_list_items_by_name
box_twice_test = refl

sort_host_list_items_by_name_loses_example :
    sort_host_list_items_by_name
      (λ names. names)
      (item "dev" running ∷ item "Box" running ∷ item "box" State.stopped ∷ [])
    ≡ sort_host_list_items_by_name
        (λ names. names)
        (item "dev" running ∷ item "BOX" State.error ∷ item "box" State.stopped ∷ [])
sort_host_list_items_by_name_loses_example =
    sort_host_list_items_by_name_loses (item "box" State.stopped ∷ []) (item "Box" running)
      (item "BOX" State.error) refl (λ names. names) (item "dev" running ∷ []) refl

abbrev auth : Auth
auth = record { passwords = []; keys = "/m/id_rsa" ∷ [] }

abbrev client : ExternalClient
client = record {
  base_args =
      p2box.Ssh.base_ssh_args
      ++ ("core@10.0.0.2" ∷ "-o" ∷ "IdentitiesOnly=yes" ∷ "-i" ∷ "/m/id_rsa" ∷ "-p" ∷ "22" ∷ []);
  binary_path = "/usr/bin/ssh";
}

new_external_client-AllPrivate_example :
    AllPrivate (λ path. ok 384) ("/m/id_rsa" ∷ [])
    × (client ≡ record {
      base_args =
          p2box.Ssh.base_ssh_args
          ++ ("core@10.0.0.2"
              ∷ "-o"
              ∷ "IdentitiesOnly=yes"
              ∷ (identity_args ("/m/id_rsa" ∷ []) ++ ("-p" ∷ "22" ∷ [])));
      binary_path = "/usr/bin/ssh";
    })
unfolding new_external_client p2box.Ssh.key_args
new_external_client-AllPrivate_example =
    new_external_client-AllPrivate (λ path. ok 384) (λ n. "22") "/usr/bin/ssh" "core" "10.0.0.2"
      (ℤ.pos 22) auth client refl

abbrev count : ℕ → Go ℕ ℕ
count k so_far = (ok k, so_far + k)

zero_fill-Filled_example : Filled count (λ so_far. so_far) 5 3 0
zero_fill-Filled_example =
    zero_fill-Filled count (λ so_far. so_far) (λ k so_far. inl (refl, refl)) 5 3 0 (omega arith)

abbrev load_lab : Text → Go Lab (Driver Lab)
load_lab name = pure lab_driver

abbrev quote : Text → Text
quote s = b'"' ∷ (s ++ codes "\"")

abbrev remote : Text
remote = codes "/tmp/a:b"
