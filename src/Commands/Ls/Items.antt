-- ===== src/Commands/Ls/Items.antt =====
-- commands/ls.go: what is shown of each machine, and the order of the list.
pub mod Sorting
use mathlib.Core.List.{map}
use p2box.Base.{
  ℕ, Bool, true, false, String, Text, codes, text_eq, cut, lower, List, [], ◌∷◌, ◌++◌, Option, none,
  some, str_eq, if◌then◌else◌, ◌&&◌, not,
}
use p2box.State
use p2box.State.{State, running, timeout, state_eq, iota, to_string}
use p2box.Go.{
  Error, message, panic, host_is_not_running, Result, ok, err, Go, pure, fail, lift, ◌>>=◌, ◌>>◌,
}
use p2box.Drivers.{Method, call}
use p2box.Provision.{EngineOptions}
use p2box.Host.{Options, Host, deref}
use p2box.Persist.Hosts.{Store, load_all_hosts}

-- `none` stands for the empty text in `error`. The field for the time of the response is left out.
pub record HostListItem : Type 0 where
  pub name : Text
  pub active : Text
  pub active_host : Bool
  pub driver_name : Text
  pub state : State
  pub url : Text
  pub engine_options : Option EngineOptions
  pub error : Option Error

-- `isActive`, over the value of PODMAN_MACHINE_NAME
abbrev pub is_active : Text → State → Text → Bool
is_active machine_variable current_state host_name =
    state_eq current_state running && text_eq host_name machine_variable

-- An error that says that the host does not run is shown as no error.
abbrev pub shown_error : Option Error → Option Error
shown_error none = none
shown_error (some host_is_not_running) = none
shown_error (some e) = some e

abbrev engine_of : Option Options → Option EngineOptions
engine_of none = none
engine_of (some o) = o.engine_options

-- The URL, the state and the error: the state is asked for where there is no URL.
abbrev pub Answer : Type 0
Answer = Text × State × Option Error

module _ {W : Type 0} (machine_variable : Text) where
  abbrev answer_without_url : Host W → Method W Answer
  answer_without_url h w = let ((s, e), w') = h.driver.get_state w in (([], s, e), w')

  abbrev pub url_answer : Host W → Result String → Method W Answer
  url_answer h (err e) w = let ((s, x), w') = h.driver.get_state w in (([], s, some e), w')
  url_answer h (ok url) w =
      let asked = answer_without_url h w in
      if str_eq url "" then asked else ((codes url, running, none), w)

  abbrev item_of : Host W → String → Answer → HostListItem
  item_of h driver_name (url, s, e) =
      let active = is_active machine_variable s (codes h.name) in
      record {
        name = codes h.name;
        active = (if active then codes "*" else codes "-");
        active_host = active;
        driver_name = codes driver_name;
        state = s;
        url = url;
        engine_options = engine_of h.host_options;
        error = shown_error e;
      }

  unfoldable pub attempt_get_host_state : Host W → Method W HostListItem
  attempt_get_host_state h w =
      let (r, w1) = h.driver.get_url w in
      let (answer, w2) = url_answer h r w1 in
      let (driver_name, w3) = h.driver.driver_name w2 in (item_of h driver_name answer, w3)

  -- What is shown of a host whose answer does not come in time. What the query that goes on does to
  -- the world afterwards is left out.
  abbrev pub timed_out : Host W → Method W HostListItem
  timed_out h w =
      let (driver_name, w') = h.driver.driver_name w in
      (
        record {
          name = codes h.name;
          active = [];
          active_host = false;
          driver_name = codes driver_name;
          state = timeout;
          url = [];
          engine_options = none;
          error = none;
        },
        w',
      )

  unfoldable pub get_host_state : Bool → Host W → Method W HostListItem
  get_host_state late h w =
      let attempt = attempt_get_host_state h w in if late then timed_out h w else attempt

  -- The hosts in the order of their answers, each with whether it is late. Each query is one step.
  abbrev pub received : List (Host W × Bool) → Method W (List HostListItem)
  received [] w = ([], w)
  received ((h, late) ∷ arrivals) w =
      let (item, w1) = get_host_state late h w in
      let (items, w2) = received arrivals w1 in (item ∷ items, w2)

abbrev pub new_host_list_item_in_error : Text → Error → HostListItem
new_host_list_item_in_error name e = record {
  name = name;
  active = [];
  active_host = false;
  driver_name = codes "not found";
  state = State.error;
  url = [];
  engine_options = none;
  error = some e;
}

-- The zero value of `HostListItem`.
abbrev pub empty_item : HostListItem
empty_item = record {
  name = [];
  active = [];
  active_host = false;
  driver_name = [];
  state = State.none;
  url = [];
  engine_options = none;
  error = none;
}

abbrev pub has_name : List HostListItem → Text → Bool
has_name [] name = false
has_name (v ∷ items) name = if text_eq (lower v.name) name then true else has_name items name

-- m[name], where the last item of a name in small letters wins.
abbrev pub item_named : List HostListItem → Text → HostListItem
item_named [] name = empty_item
item_named (v ∷ items) name =
    let here = (if text_eq (lower v.name) name then v else empty_item) in
    let others = item_named items name in if has_name items name then others else here

abbrev pub lower_names : List HostListItem → List Text
lower_names [] = []
lower_names (v ∷ items) = lower v.name ∷ lower_names items

-- `natural_sort` is sort.Sort(naturalsort.NaturalSort(s)).
module _ (natural_sort : List Text → List Text) where
  unfoldable pub sort_host_list_items_by_name : List HostListItem → List HostListItem
  sort_host_list_items_by_name items = map (item_named items) (natural_sort (lower_names items))

  abbrev pub items_in_error : List (String × Error) → List HostListItem
  items_in_error [] = []
  items_in_error ((name, e) ∷ rest) =
      new_host_list_item_in_error (codes name) e ∷ items_in_error rest

  unfoldable pub get_host_list_items :
      {W : Type 0}
      → Text
      → List (Host W × Bool)
      → List (String × Error)
      → Method W (List HostListItem)
  get_host_list_items machine_variable arrivals hosts_in_error w =
      let (items, w') = received machine_variable arrivals w in
      (sort_host_list_items_by_name (items ++ items_in_error hosts_in_error), w')
