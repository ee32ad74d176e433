-- ===== src/VirtualBox/Address.antt =====
-- drivers/virtualbox/virtualbox.go and ip.go: the address of a machine.
use p2box.Base.{
  lower, ℕ, Bool, true, false, String, Text, codes, text_eq, has_prefix, contains, split,
  trim_space, List, [], ◌∷◌, ◌++◌, Option, none, some, if◌then◌else◌, ◌==◌, leb, ◌&&◌, not,
}
use p2box.State.{running, state_eq}
use p2box.Go.{
  Error, message, panic, host_is_not_running, machine_not_exist, Result, ok, err, Go, pure, fail,
  lift, ◌>>=◌, ◌>>◌,
}
use p2box.Wait.{WaitTest, wait_for_specific}
use p2box.Drivers.{Driver, System, wait_for_ssh}
use p2box.VirtualBox.Vbm.{VbmAnswer}
use p2box.VirtualBox.Machine.{Machine, state_or_fail, after_prefix, machine_not_found}

abbrev pub is_digit : ℕ → Bool
is_digit c = leb b'0' c && leb c b'9'

-- The digits at the beginning of a text.
abbrev pub digits : Text → Text
digits [] = []
digits (c ∷ s) = let rest = digits s in if is_digit c then c ∷ rest else []

abbrev pub unless_empty : Text → Option Text
unless_empty [] = none
unless_empty (c ∷ s) = some (c ∷ s)

abbrev pub adapter_on_line : Text → Option Text
adapter_on_line line = elim (after_prefix line (codes "hostonlyadapter")) [
  | none ↦ none
  | some s ↦ unless_empty (digits s)
]

-- ^hostonlyadapter([\d]+) on the first line that matches
abbrev pub host_only_adapter : List Text → Option Text
host_only_adapter [] = none
host_only_adapter (line ∷ lines) =
    let others = host_only_adapter lines in
    elim (adapter_on_line line) [ none ↦ others | some n ↦ some n ]

abbrev pub onto_some : ℕ → Option Text → Option Text
onto_some c none = none
onto_some c (some s) = some (c ∷ s)

-- (.*)" at the beginning of a line: what stands before its last quote.
abbrev pub before_last_quote : Text → Option Text
before_last_quote [] = none
before_last_quote (c ∷ s) = elim (before_last_quote s) [
  | some found ↦ some (c ∷ found)
  | none ↦ if c == b'"' then some [] else none
]

abbrev pub mac_on_line : Text → Text → Option Text
mac_on_line adapter line =
    elim (after_prefix line (codes "macaddress" ++ (adapter ++ codes "=\""))) [
      | none ↦ none
      | some s ↦ before_last_quote s
    ]

abbrev pub mac_of_adapter : Text → List Text → Option Text
mac_of_adapter adapter [] = none
mac_of_adapter adapter (line ∷ lines) =
    let others = mac_of_adapter adapter lines in
    elim (mac_on_line adapter line) [ none ↦ others | some mac ↦ some mac ]

abbrev pub mac_found : Option Text → Result Text
mac_found none = err (message "Could not find MAC address for adapter")
mac_found (some mac) = ok (lower mac)

abbrev pub mac_among : List Text → Option Text → Result Text
mac_among lines none = err (message "Machine does not have a host-only adapter")
mac_among lines (some adapter) = mac_found (mac_of_adapter adapter lines)

abbrev pub mac_answer : VbmAnswer → Result Text
mac_answer (stdout, stderr, some e) =
    err (if machine_not_found stderr then machine_not_exist else e)
mac_answer (stdout, stderr, none) =
    let lines = split stdout b'\n' in mac_among lines (host_only_adapter lines)

-- The first part of strings.Split(s, sep), and what follows the separator, if there is one.
abbrev pub cut_at : Text → Text → Text × Option Text
cut_at sep [] = ([], none)
cut_at sep (c ∷ s) =
    let (before, after) = cut_at sep s in
    elim (after_prefix (c ∷ s) sep) [ some rest ↦ ([], some rest) | none ↦ (c ∷ before, after) ]

-- vals[1] of vals := strings.Split(s, sep), where there is one
abbrev pub second_part : Text → Text → Option Text
second_part sep s = elim (cut_at sep s).1 [ none ↦ none | some rest ↦ some (cut_at sep rest).0 ]

-- s[:strings.Index(s, " ")], where `none` is the panic without a space
abbrev pub before_space : Text → Option Text
before_space [] = none
before_space (c ∷ s) = let rest = before_space s in if c == 32 then some [] else onto_some c rest

abbrev pub without_colons : Text → Text
without_colons [] = []
without_colons (c ∷ s) = let rest = without_colons s in if c == b':' then rest else c ∷ rest

-- The three variables of the loop.
pub record Reading : Type 0 where
  pub ip_address : Text
  pub found_device : Bool
  pub found_address : Bool

abbrev pub nothing_read : Reading
nothing_read = record { ip_address = []; found_device = false; found_address = false }

module _ (mac_address : Text) where
  abbrev is_mac : Text → Bool
  is_mac block = text_eq (without_colons (lower block)) mac_address

  -- A line with "Link".
  abbrev pub on_link : Option Text → Reading → Reading
  on_link none r = r
  on_link (some block) r =
      if is_mac block then record r { found_device = true; found_address = false } else r

  -- A line with "ether"; the address ends at a space, without which the slice panics.
  abbrev pub on_ether_block : Option Text → Reading → Option Reading
  on_ether_block none r = none
  on_ether_block (some block) r =
      some (if is_mac block then record r { found_device = true } else r)

  abbrev pub on_ether : Option Text → Reading → Option Reading
  on_ether none r = some r
  on_ether (some block) r = on_ether_block (before_space block) r

  abbrev pub with_address : Option Text → Reading → Option Reading
  with_address none r = none
  with_address (some ip) r = some (record r { ip_address = ip; found_address = true })

  abbrev pub address_part : Option Text → Text → Option Text
  address_part (some part) line = some part
  address_part none line = second_part (codes "inet ") line

  abbrev pub on_inet : Option Text → Reading → Option Reading
  on_inet none r = none
  on_inet (some part) r = with_address (before_space part) r

  -- One line, trimmed. `none` is a panic.
  unfoldable pub read_ip_line : Text → Reading → Option Reading
  read_ip_line line r =
      if contains line (codes "Link")
      then some (on_link (second_part (codes "HWaddr ") line) r)
      else if contains line (codes "ether")
      then on_ether (second_part (codes "ether ") line) r
      else if has_prefix line (codes "inet") && not (has_prefix line (codes "inet6"))
      then on_inet (address_part (second_part (codes "addr:") line) line) r
      else some r

  abbrev pub no_match : Error
  no_match = message "Could not find matching IP for MAC address"

  abbrev pub slice_panic : Error
  slice_panic = panic "slice bounds out of range"

  -- The lines are read until the device and an address are found.
  unfoldable pub read_ip_lines : List Text → Reading → Result Text
  read_ip_lines [] r = err no_match
  read_ip_lines (line ∷ lines) r = elim (read_ip_line (trim_space line) r) [
    | none ↦ err slice_panic
    | some r' ↦
        (let later = read_ip_lines lines r' in
          if r'.found_device && r'.found_address then ok r'.ip_address else later)
  ]

  unfoldable pub parse_ip_for_mac_from_ip_addr : Text → Result Text
  parse_ip_for_mac_from_ip_addr output = read_ip_lines (split output b'\n') nothing_read

module _ {W : Type 0} (d : Machine W) (run_ssh_command : String → Go W String) where
  unfoldable pub get_host_only_mac_address : Go W Text
  get_host_only_mac_address w =
      let (answer, w') =
        d.vbox.run_out_err (codes "showvminfo" ∷ d.name ∷ codes "--machinereadable" ∷ []) w in
      (mac_answer answer, w')

  unfoldable pub get_ip : Go W Text
  get_ip = do
    s ← state_or_fail d
    if not (state_eq s running) then fail host_is_not_running else do
      mac_address ← get_host_only_mac_address
      output ← run_ssh_command "ifconfig"
      lift (parse_ip_for_mac_from_ip_addr mac_address (codes output))

  abbrev is_address : Result Text → Bool
  is_address (ok (c ∷ ip)) = true
  is_address _ = false

  unfoldable pub host_only_ip_available : WaitTest W
  host_only_ip_available w = let (r, w') = get_ip w in (is_address r, w')

  abbrev pub url_of : Text → Text
  url_of [] = []
  url_of (c ∷ ip) = codes "tcp://" ++ (c ∷ ip)

  unfoldable pub get_url : Go W Text
  get_url = do ip ← get_ip; pure (url_of ip)

  abbrev keep_address : Result Text → Go W Unit
  keep_address (ok ip) w = (ok tt, d.set_ip_address ip w)
  keep_address (err e) w = (err e, d.set_ip_address [] w)

  -- `sshIPWaiter.Wait`, where `driver` is this machine behind the interface `Driver`.
  unfoldable pub wait_for_ip : System W → Driver W → Go W Unit
  wait_for_ip sys driver = do
    wait_for_ssh sys driver
    wait_for_specific sys.sleep host_only_ip_available 5 4000
    λ w. let (r, w') = get_ip w in keep_address r w'
