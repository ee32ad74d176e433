-- ===== src/Commands/Ls.antt =====
-- commands/ls.go: the list of the machines.
pub mod Filter
pub mod Items
use p2box.Base.{Bool, String, Text, List, [], ◌∷◌, Option, if◌then◌else◌}
use p2box.Go.{Go, pure, lift, ◌>>=◌}
use p2box.Drivers.{call}
use p2box.Host.{Host}
use p2box.Persist.Hosts.{Store, load_all_hosts}
use p2box.Commands.Ls.Filter.{parse_filters, filter_hosts}
use p2box.Commands.Ls.Items.{HostListItem, get_host_list_items}

-- What is printed: the names alone, or the items of the list.
pub data Listing : Type 0 where
  names : List String → Listing
  items : List HostListItem → Listing

abbrev pub names_of : {W : Type 0} → List (Host W) → List String
names_of [] = []
names_of (h ∷ hosts) = h.name ∷ names_of hosts

-- `cmdLs`. `arrive` is the order in which the hosts answer, each with whether it is late; the format
-- of an item is left out.
module _ (match_string : Text → Text → Option Bool) (natural_sort : List Text → List Text)
    (machine_variable : Text) {W : Type 0} (arrive : List (Host W) → List (Host W × Bool)) where
  unfoldable pub cmd_ls : Store W (Host W) → List Text → Bool → Go W Listing
  cmd_ls api texts quiet = do
    filters ← lift (parse_filters texts)
    loaded ← load_all_hosts api
    hosts ← filter_hosts match_string loaded.0 filters
    if quiet then pure (names (names_of hosts)) else do
      shown ← call (get_host_list_items natural_sort machine_variable (arrive hosts) loaded.1)
      pure (items shown)
