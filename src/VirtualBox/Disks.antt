-- ===== src/VirtualBox/Disks.antt =====
-- drivers/virtualbox/vm.go and disk.go: what VirtualBox tells of a machine, and filling a disk image.
pub mod Filling
use p2box.Base.{
  ℕ, ℤ, zero, suc, ◌-◌, Bool, Text, codes, text_eq, List, [], ◌∷◌, Option, none, some, ltb, leb,
  ◌==◌, if◌then◌else◌,
}
use p2box.Go.{message, Result, ok, err, Go, lift, ◌>>=◌}
use p2box.VirtualBox.Vbm.{VboxManager}
use p2box.VirtualBox.Machine.{after_prefix}
use p2box.VirtualBox.Address.{before_last_quote}
use p2box.VirtualBox.Output.{KeyValue, onto_key, with_key, equal_line, parse_key_values}

abbrev pub onto_no_key : Option Text → Option KeyValue
onto_no_key none = none
onto_no_key (some val) = some ([], val)

abbrev pub closed_value : Option Text → Option KeyValue
closed_value none = none
closed_value (some s) = onto_no_key (before_last_quote s)

-- What stands before the last quoted "=" with a quote behind it, and what is quoted there.
abbrev pub at_last_quoted : Text → Option KeyValue
at_last_quoted [] = none
at_last_quoted (c ∷ s) = elim (at_last_quoted s) [
  | some found ↦ onto_key c (some found)
  | none ↦ closed_value (after_prefix (c ∷ s) (codes "\"=\""))
]

abbrev pub first_some : Option KeyValue → Option KeyValue → Option KeyValue
first_some none later = later
first_some (some kv) later = some kv

-- "(.+)"="(.*)" on a line, from the first quote at which it matches
abbrev pub equal_quote_line : Text → Option KeyValue
equal_quote_line [] = none
equal_quote_line (c ∷ s) =
    let later = equal_quote_line s in
    if c == b'"' then first_some (with_key (at_last_quoted s)) later else later

pub record Vm : Type 0 where
  pub cpus : ℤ
  pub memory : ℤ

pub record VirtualDisk : Type 0 where
  pub uuid : Text
  pub path : Text

abbrev pub show_args : Text → List Text
show_args name = codes "showvminfo" ∷ name ∷ codes "--machinereadable" ∷ []

-- `atoi` is strconv.Atoi.
module _ (atoi : Text → Option ℤ) where
  abbrev with_number : (ℤ → Vm) → Option ℤ → Result Vm
  with_number f none = err (message "invalid syntax")
  with_number f (some v) = ok (f v)

  unfoldable pub read_vm : Text → Text → Vm → Result Vm
  read_vm key val vm =
      if text_eq key (codes "cpus")
      then with_number (λ v. record vm { cpus = v }) (atoi val)
      else if text_eq key (codes "memory")
      then with_number (λ v. record vm { memory = v }) (atoi val)
      else ok vm

  unfoldable pub get_vm_info : {W : Type 0} → VboxManager W → Text → Go W Vm
  get_vm_info vbox name = do
    out ← vbox.run_out (show_args name)
    lift (parse_key_values equal_line read_vm out (record { cpus = ℤ.pos 0; memory = ℤ.pos 0 }))

unfoldable pub read_disk : Text → Text → VirtualDisk → Result VirtualDisk
read_disk key val disk =
    if text_eq key (codes "SATA-1-0")
    then ok (record disk { path = val })
    else if text_eq key (codes "SATA-ImageUUID-1-0")
    then ok (record disk { uuid = val })
    else ok disk

unfoldable pub get_vm_disk_info : {W : Type 0} → VboxManager W → Text → Go W VirtualDisk
get_vm_disk_info vbox name = do
  out ← vbox.run_out (show_args name)
  lift (parse_key_values equal_quote_line read_disk out (record { uuid = []; path = [] }))

abbrev pub block_size : ℕ
block_size = 32768

-- `write k` writes k zero bytes and gives the number of those that were written.
module _ {W : Type 0} (write : ℕ → Go W ℕ) where
  abbrev pub chunk : ℕ → ℕ
  chunk n = if ltb block_size n then block_size else n

  abbrev pub after_write :
      (ℕ → W → Option (Result (Unit {0}) × W)) → ℕ → Result ℕ × W → Option (Result (Unit {0}) × W)
  after_write again n (err e, w) = some (err e, w)
  after_write again n (ok k, w) = again (n - k) w

  -- The loop of `zeroFill`, on fuel: `none` means that it is used up.
  unfoldable pub zero_fill : ℕ → ℕ → W → Option (Result (Unit {0}) × W)
  zero_fill zero zero w = some (ok tt, w)
  zero_fill zero (suc n) w = none
  zero_fill (suc fuel) zero w = some (ok tt, w)
  zero_fill (suc fuel) (suc n) w =
      after_write (λ left w'. zero_fill fuel left w') (suc n) (write (chunk (suc n)) w)
