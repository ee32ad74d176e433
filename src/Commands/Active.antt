-- ===== src/Commands/Active.antt =====
-- commands/active.go, commands/status.go and commands/url.go: commands that ask for one thing.
use p2box.Base.{Bool, true, false, String, Text, List, [], ◌∷◌, if◌then◌else◌}
use p2box.State.{State, timeout, state_eq}
use p2box.Go.{Error, message, wrap, Result, ok, err, Go, pure, fail, lift, ◌>>=◌, wrap_with}
use p2box.Drivers.{call, checked_state}
use p2box.Host.{Host}
use p2box.Persist.Hosts.{Store, load_all_hosts}
use p2box.Commands.{target_host}
use p2box.Commands.Env.{expected_one_machine, at_most_one}
use p2box.Commands.Ls.Items.{HostListItem, get_host_list_items}

abbrev pub no_active_host : Error
no_active_host = message "No active host found"

abbrev pub active_timeout : Error
active_timeout = message "Error getting active host: timeout"

-- The loop over the items, with whether one of them is late so far.
abbrev pub active_among : Bool → List HostListItem → Result HostListItem
active_among late [] = err (if late then active_timeout else no_active_host)
active_among late (item ∷ items) =
    let later = active_among (if state_eq item.state timeout then true else late) items in
    if item.active_host then ok item else later

unfoldable pub active_host : List HostListItem → Result HostListItem
active_host items = active_among false items

-- `cmdActive`, with the name that it prints.
module _ (natural_sort : List Text → List Text) (machine_variable : Text) {W : Type 0}
    (arrive : List (Host W) → List (Host W × Bool)) where
  abbrev pub active_name : Store W (Host W) → Go W Text
  active_name api = do
    loaded ← wrap_with (wrap "Error getting active host") (load_all_hosts api)
    items ← call (get_host_list_items natural_sort machine_variable (arrive loaded.0) loaded.1)
    active ← lift (active_host items)
    pure active.name

  unfoldable pub cmd_active : Store W (Host W) → List String → Go W Text
  cmd_active api [] = active_name api
  cmd_active api (arg ∷ args) = fail (message "Error: Too many arguments given")

module _ {W : Type 0} (api : Store W (Host W)) where
  abbrev target : List String → Go W (Host W)
  target args =
      if at_most_one args then (target_host api args >>= api.load) else fail expected_one_machine

  unfoldable pub cmd_status : List String → Go W State
  cmd_status args = do
    h ← target args
    wrap_with (wrap "error getting state for host") (checked_state h.driver)

  -- `host.URL()` is the URL of the driver.
  unfoldable pub cmd_url : List String → Go W String
  cmd_url args = do h ← target args; h.driver.get_url
