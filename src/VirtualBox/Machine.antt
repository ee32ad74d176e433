-- ===== src/VirtualBox/Machine.antt =====
-- drivers/virtualbox/virtualbox.go: the state of a machine, stopping it and removing it.
use p2box.Base.{
  ℕ, zero, suc, Bool, true, false, Text, codes, split, text_eq, List, [], ◌∷◌, Option, none, some,
  if◌then◌else◌, ◌||◌, ◌&&◌, leb, ◌==◌, not,
}
use p2box.State.{State, running, paused, saved, stopped, error, state_eq}
use p2box.Go.{Error, machine_not_exist, Result, ok, err, Go, pure, ◌>>=◌, ◌>>◌}
use p2box.Drivers.{Method, StateAnswer}
use p2box.Wait.{Sleep}
use p2box.VirtualBox.Vbm.{VbmAnswer, VboxManager}

-- \w of a regular expression
abbrev pub is_word : ℕ → Bool
is_word c =
    (leb b'0' c && leb c b'9')
    || ((leb b'A' c && leb c b'Z') || ((leb b'a' c && leb c b'z') || (c == b'_')))

abbrev onto : ℕ → Option Text → Option Text
onto c none = none
onto c (some s) = some (c ∷ s)

-- \w*" at the beginning of a text: what stands before the quote.
abbrev pub word_before_quote : Text → Option Text
word_before_quote [] = none
word_before_quote (c ∷ s) =
    let rest = word_before_quote s in
    if c == b'"' then some [] else if is_word c then onto c rest else none

-- \w+"
abbrev nonempty : Option Text → Option Text
nonempty none = none
nonempty (some []) = none
nonempty (some (c ∷ s)) = some (c ∷ s)

-- What follows a prefix.
abbrev pub after_prefix : Text → Text → Option Text
after_prefix s [] = some s
after_prefix [] (p ∷ ps) = none
after_prefix (c ∷ s) (p ∷ ps) = let rest = after_prefix s ps in if c == p then rest else none

-- VMState="(\w+)" at the beginning of a line
abbrev pub state_on_line : Text → Option Text
state_on_line line = elim (after_prefix line (codes "VMState=\"")) [
  | none ↦ none
  | some s ↦ nonempty (word_before_quote s)
]

-- The first of the lines that matches.
abbrev pub vm_state : List Text → Option Text
vm_state [] = none
vm_state (line ∷ lines) =
    let others = vm_state lines in
    elim (state_on_line line) [ none ↦ others | some word ↦ some word ]

-- .+' at the beginning of a text
abbrev quote_on_line : Text → Bool
quote_on_line [] = false
quote_on_line (c ∷ s) =
    let later = quote_on_line s in if c == b'\n' then false else if c == b'\'' then true else later

abbrev quote_after_one : Text → Bool
quote_after_one [] = false
quote_after_one (c ∷ s) = not (c == b'\n') && quote_on_line s

abbrev named_here : Option Text → Bool
named_here none = false
named_here (some s) = quote_after_one s

-- Could not find a registered machine named '(.+)'
abbrev pub machine_not_found : Text → Bool
machine_not_found [] = false
machine_not_found (c ∷ s) =
    named_here (after_prefix (c ∷ s) (codes "Could not find a registered machine named '"))
    || machine_not_found s

abbrev pub state_of_word : Option Text → State
state_of_word none = State.none
state_of_word (some word) =
    if text_eq word (codes "running")
    then running
    else if text_eq word (codes "paused")
    then paused
    else if text_eq word (codes "saved")
    then saved
    else if text_eq word (codes "poweroff")
    then stopped
    else if text_eq word (codes "aborted")
    then stopped
    else State.none

abbrev pub state_answer : VbmAnswer → StateAnswer
state_answer (stdout, stderr, some e) =
    (error, some (if machine_not_found stderr then machine_not_exist else e))
state_answer (stdout, stderr, none) = (state_of_word (vm_state (split stdout b'\n')), none)

-- What these operations use of the driver: its name, its field `IPAddress`, the clock, and
-- VBoxManage.
pub record Machine (W : Type 0) : Type 0 where
  pub name : Text
  pub set_ip_address : Text → W → W
  pub sleep : Sleep W
  pub vbox : VboxManager W

-- `err == ErrMachineNotExist`
abbrev pub unless_gone : Error → Result (Unit {0})
unless_gone machine_not_exist = ok tt
unless_gone e = err e

module _ {W : Type 0} (d : Machine W) where
  unfoldable pub get_state : Method W StateAnswer
  get_state w =
      let (answer, w') =
        d.vbox.run_out_err (codes "showvminfo" ∷ d.name ∷ codes "--machinereadable" ∷ []) w in
      (state_answer answer, w')

  -- `GetState`, and its error returned
  abbrev pub state_or_fail : Go W State
  state_or_fail w =
      let ((s, e), w') = get_state w in elim e [ none ↦ (ok s, w') | some x ↦ (err x, w') ]

  unfoldable pub kill : Go W Unit
  kill = d.vbox.run (codes "controlvm" ∷ d.name ∷ codes "poweroff" ∷ [])

  -- The part of `Stop` before its loop.
  unfoldable pub press_button : Go W Unit
  press_button = do
    current_state ← state_or_fail
    if state_eq current_state paused
        then d.vbox.run (codes "controlvm" ∷ d.name ∷ codes "resume" ∷ [])
        else pure tt
    d.vbox.run (codes "controlvm" ∷ d.name ∷ codes "acpipowerbutton" ∷ [])

  -- The loop of `Stop`, which has no bound of its own. `none` means that the fuel is used up.
  unfoldable pub poll_stopped : ℕ → W → Option (Result (Unit {0}) × W)
  poll_stopped zero w = none
  poll_stopped (suc fuel) w =
      let again = poll_stopped fuel (d.sleep 1000 (get_state w).1) in
      elim (state_or_fail w).0 [
        | err e ↦ some (err e, (get_state w).1)
        | ok s ↦ if state_eq s running then again else some (ok tt, (get_state w).1)
      ]

  abbrev pub forget_address : Result (Unit {0}) × W → Result (Unit {0}) × W
  forget_address (err e, w) = (err e, w)
  forget_address (ok u, w) = (ok tt, d.set_ip_address [] w)

  unfoldable pub stop : ℕ → W → Option (Result (Unit {0}) × W)
  stop fuel w = elim (press_button w).0 [
    | err e ↦ some (err e, (press_button w).1)
    | ok u ↦ elim (poll_stopped fuel (press_button w).1) [
      | none ↦ none
      | some r ↦ some (forget_address r)
    ]
  ]

  -- The part of `Remove` behind the query of the state.
  abbrev pub remove_in : State → Go W Unit
  remove_in s = do
    if not (state_eq s stopped) && not (state_eq s saved) then kill else pure tt
    d.vbox.run (codes "unregistervm" ∷ codes "--delete" ∷ d.name ∷ [])

  unfoldable pub remove : Go W Unit
  remove w = elim (state_or_fail w).0 [
    | err e ↦ (unless_gone e, (get_state w).1)
    | ok s ↦ remove_in s (get_state w).1
  ]
