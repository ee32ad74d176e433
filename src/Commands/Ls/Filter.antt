-- ===== src/Commands/Ls/Filter.antt =====
-- commands/ls.go: the filters of the list.
pub mod Syntax
use mathlib.Core.List.{map}
use p2box.Base.{
  ℕ, Bool, true, false, String, Text, codes, text_eq, cut, lower, List, [], ◌∷◌, ◌++◌, Option, none,
  some, str_eq, if◌then◌else◌, ◌&&◌, not,
}
use p2box.State
use p2box.State.{State, running, timeout, state_eq, iota, to_string}
use p2box.Go.{
  Error, message, panic, host_is_not_running, Result, ok, err, Go, pure, fail, lift, ◌>>=◌, ◌>>◌,
}
use p2box.Drivers.{Method, call}
use p2box.Provision.{EngineOptions}
use p2box.Host.{Options, Host, deref}
use p2box.Persist.Hosts.{Store, load_all_hosts}

pub record FilterOptions : Type 0 where
  pub driver_name : List Text
  pub state : List Text
  pub name : List Text
  pub labels : List Text

abbrev pub no_filters : FilterOptions
no_filters = record { driver_name = []; state = []; name = []; labels = [] }

abbrev pub unsupported_syntax : Error
unsupported_syntax = message "Unsupported filter syntax"

abbrev pub unsupported_key : Error
unsupported_key = message "Unsupported filter key"

-- The case of one key.
abbrev pub add_filter : Text → Text → FilterOptions → Result FilterOptions
add_filter key value o =
    if text_eq key (codes "driver")
    then ok (record o { driver_name = o.driver_name ++ (value ∷ []) })
    else if text_eq key (codes "state")
    then ok (record o { state = o.state ++ (value ∷ []) })
    else if text_eq key (codes "name")
    then ok (record o { name = o.name ++ (value ∷ []) })
    else if text_eq key (codes "label")
    then ok (record o { labels = o.labels ++ (value ∷ []) })
    else err unsupported_key

abbrev pub read_filter : Option (Text × Text) → FilterOptions → Result FilterOptions
read_filter none o = err unsupported_syntax
read_filter (some (key, value)) o = add_filter (lower key) value o

unfoldable pub filters_from : List Text → FilterOptions → Result FilterOptions
filters_from [] o = ok o
filters_from (f ∷ filters) o = elim (read_filter (cut f b'=') o) [
  | err e ↦ err e
  | ok o' ↦ filters_from filters o'
]

unfoldable pub parse_filters : List Text → Result FilterOptions
parse_filters filters = filters_from filters no_filters

-- strings.EqualFold on ASCII
abbrev pub equal_fold : Text → Text → Bool
equal_fold s t = text_eq (lower s) (lower t)

abbrev pub any_fold : Text → List Text → Bool
any_fold s [] = false
any_fold s (t ∷ ts) = if equal_fold s t then true else any_fold s ts

abbrev pub index_panic : Error
index_panic = panic "index out of range"

-- englabels[kv[0]] = kv[1] for each label; a label without "=" panics. The last one of a key wins.
abbrev pub onto_labels :
    Option (Text × Text) → Result (List (Text × Text)) → Result (List (Text × Text))
onto_labels none later = err index_panic
onto_labels (some kv) (err e) = err e
onto_labels (some kv) (ok kvs) = ok (kvs ++ (kv ∷ []))

abbrev pub label_map : List String → Result (List (Text × Text))
label_map [] = ok []
label_map (s ∷ labels) = onto_labels (cut (codes s) b'=') (label_map labels)

abbrev pub find_label : Text → List (Text × Text) → Option Text
find_label key [] = none
find_label key ((k, v) ∷ kvs) =
    let others = find_label key kvs in if text_eq k key then some v else others

abbrev pub key_of_label : Text → Option (Text × Text) → Text
key_of_label l none = l
key_of_label l (some (key, value)) = key

-- Whether the label of a filter is there: the value of the filter is read only where its key is.
abbrev pub label_found : Option Text → Option (Text × Text) → Result Bool
label_found none kv = ok false
label_found (some v) none = err index_panic
label_found (some v) (some (key, value)) = ok (equal_fold v value)

abbrev pub any_label : List (Text × Text) → List Text → Result Bool
any_label kvs [] = ok false
any_label kvs (l ∷ labels) =
    let later = any_label kvs labels in
    let kv = cut l b'=' in
    elim (label_found (find_label (key_of_label l kv) kvs) kv) [
      | err e ↦ err e
      | ok b ↦ if b then ok true else later
    ]

abbrev pub is_no_text : List Text → Bool
is_no_text [] = true
is_no_text (t ∷ ts) = false

abbrev pub is_no_filter : FilterOptions → Bool
is_no_filter o =
    is_no_text o.driver_name && (is_no_text o.state && (is_no_text o.name && is_no_text o.labels))

-- regexp.MatchString of a pattern and a text; `none` is a pattern that does not compile, at which
-- the process exits.
module _ (match_string : Text → Text → Option Bool) {W : Type 0} where
  unfoldable pub matches_driver_name : Host W → List Text → Bool
  matches_driver_name h [] = true
  matches_driver_name h (n ∷ names) = any_fold (codes h.driver_name) (n ∷ names)

  -- The state is asked for at each of the words, and its error is only logged.
  abbrev pub any_state : Host W → List Text → Go W Bool
  any_state h [] w = (ok false, w)
  any_state h (n ∷ states) w =
      let ((s, e), w') = h.driver.get_state w in
      let later = any_state h states w' in
      if equal_fold n (codes (to_string (iota s))) then (ok true, w') else later

  unfoldable pub matches_state : Host W → List Text → Go W Bool
  matches_state h [] = pure true
  matches_state h (n ∷ states) = any_state h (n ∷ states)

  abbrev pub exits_or : Option Bool → Go W Bool → Go W Bool
  exits_or none later = fail (panic "exit status 1")
  exits_or (some true) later = pure true
  exits_or (some false) later = later

  abbrev pub any_name : Host W → List Text → Go W Bool
  any_name h [] = pure false
  any_name h (n ∷ names) = do
    machine_name ← call h.driver.get_machine_name
    exits_or (match_string n (codes machine_name)) (any_name h names)

  unfoldable pub matches_name : Host W → List Text → Go W Bool
  matches_name h [] = pure true
  matches_name h (n ∷ names) = any_name h (n ∷ names)

  unfoldable pub matches_label : Host W → List Text → Go W Bool
  matches_label h [] = pure true
  matches_label h (l ∷ labels) = do
    options ← deref h.host_options
    engine ← deref options.engine_options
    kvs ← lift (label_map engine.labels)
    lift (any_label kvs (l ∷ labels))

  unfoldable pub filter_host : Host W → FilterOptions → Go W Bool
  filter_host h filters = do
    state_matches ← matches_state h filters.state
    name_matches ← matches_name h filters.name
    label_matches ← matches_label h filters.labels
    pure (
        matches_driver_name h filters.driver_name
        && (state_matches && (name_matches && label_matches)))

  abbrev pub kept : Host W → Bool → List (Host W) → List (Host W)
  kept h true hosts = h ∷ hosts
  kept h false hosts = hosts

  abbrev pub filtered : List (Host W) → FilterOptions → Go W (List (Host W))
  filtered [] filters = pure []
  filtered (h ∷ hosts) filters = do
    matches ← filter_host h filters
    others ← filtered hosts filters
    pure (kept h matches others)

  unfoldable pub filter_hosts : List (Host W) → FilterOptions → Go W (List (Host W))
  filter_hosts hosts filters = if is_no_filter filters then pure hosts else filtered hosts filters
