-- ===== src/State.antt =====
-- libmachine/state/state.go: the state of a machine.
use p2box.Base.{ℕ, ◌≡◌, ◌↔◌, ap, Bool, true, String, List, [], ◌∷◌, arith, ◌==◌, ==_iff, get_or}

-- The constants of `State`, in the order of their `iota`.
pub data State : Type 0 where
  none running paused saved stopped stopping starting error timeout : State

-- The number behind a `State`.
abbrev pub iota : State → ℕ
iota none = 0
iota running = 1
iota paused = 2
iota saved = 3
iota stopped = 4
iota stopping = 5
iota starting = 6
iota error = 7
iota timeout = 8

abbrev pub states : List String
states =
    "" ∷ "Running" ∷ "Paused" ∷ "Saved" ∷ "Stopped" ∷ "Stopping" ∷ "Starting" ∷ "Error" ∷ "Timeout"
    ∷ []

-- `State.String` on the number behind a state: a number out of range gives the empty text.
abbrev pub to_string : ℕ → String
to_string i = get_or states i ""

-- `==` on states compares the numbers.
abbrev pub state_eq : State → State → Bool
state_eq a b = iota a == iota b

iota-injective : (a b : State) → iota a ≡ iota b → a ≡ b
iota-injective a b h = ground arith

pub state_eq_iff : (a b : State) → (state_eq a b ≡ true) ↔ (a ≡ b)
state_eq_iff a b =
    ((λ h. iota-injective a b ((==_iff (iota a) (iota b)).0 h)), λ e. (==_iff _ _).1 (ap iota e))
