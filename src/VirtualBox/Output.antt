-- ===== src/VirtualBox/Output.antt =====
-- drivers/virtualbox/vbm.go: the lines of keys and values that VBoxManage prints.
use p2box.Base.{
  ℕ, ◌≡◌, Bool, false, Text, scan_lines, List, [], ◌∷◌, Option, none, some, if◌then◌else◌, ◌||◌,
  ◌&&◌, ◌==◌, inl, inr, subst,
}
use p2box.Go.{Result, ok, err}
use p2box.Go.Laws.{Result-cases, ok-injective}

-- \s of a regular expression: tab, line feed, form feed, carriage return and space
abbrev pub is_space : ℕ → Bool
is_space c = (c == 32) || ((c == 9) || ((c == 10) || ((c == 12) || (c == 13))))

abbrev pub drop_spaces : Text → Text
drop_spaces [] = []
drop_spaces (c ∷ s) = let rest = drop_spaces s in if is_space c then rest else c ∷ s

abbrev pub begins_with_space : Text → Bool
begins_with_space [] = false
begins_with_space (c ∷ s) = is_space c

abbrev pub KeyValue : Type 0
KeyValue = Text × Text

abbrev pub onto_key : ℕ → Option KeyValue → Option KeyValue
onto_key c none = none
onto_key c (some (key, val)) = some (c ∷ key, val)

-- What stands before the last colon with a space behind it, and what follows the spaces.
abbrev pub at_last_colon : Text → Option KeyValue
at_last_colon [] = none
at_last_colon (c ∷ s) = elim (at_last_colon s) [
  | some found ↦ onto_key c (some found)
  | none ↦ if (c == b':') && begins_with_space s then some ([], drop_spaces s) else none
]

-- What stands before the last "=", and what follows.
abbrev pub at_last_equals : Text → Option KeyValue
at_last_equals [] = none
at_last_equals (c ∷ s) = elim (at_last_equals s) [
  | some found ↦ onto_key c (some found)
  | none ↦ if c == b'=' then some ([], s) else none
]

abbrev pub with_key : Option KeyValue → Option KeyValue
with_key none = none
with_key (some ([], val)) = none
with_key (some (c ∷ key, val)) = some (c ∷ key, val)

-- (.+):\s+(.*) on a line, whose first group takes as much as it can
abbrev pub colon_line : Text → Option KeyValue
colon_line line = with_key (at_last_colon line)

-- (.+)=(.*) on a line
abbrev pub equal_line : Text → Option KeyValue
equal_line line = with_key (at_last_equals line)

module _ {S : Type 0} (matched : Text → Option KeyValue)
    (callback : Text → Text → S → Result S) where
  abbrev called : Option KeyValue → S → Result S
  called none s = ok s
  called (some (key, val)) s = callback key val s

  -- An error of the callback ends the loop.
  unfoldable pub over_lines : List Text → S → Result S
  over_lines [] s = ok s
  over_lines (line ∷ lines) s = elim (called (matched line) s) [
    | err e ↦ err e
    | ok s' ↦ over_lines lines s'
  ]

  unfoldable pub parse_key_values : Text → S → Result S
  unfolding over_lines
  parse_key_values out s = over_lines (scan_lines out) s

  over_lines-keeps :
      (P : S → Type 0)
      → ((key val : Text) (s s' : S) → P s → callback key val s ≡ ok s' → P s')
      → (lines : List Text) (s s' : S) → P s
      → over_lines lines s ≡ ok s'
      → P s'
  unfolding over_lines
  over_lines-keeps P keeps [] s s' p h = subst P (ok-injective h) p
  over_lines-keeps P keeps (line ∷ lines) s s' p h = elim (Result-cases (called (matched line) s)) [
    | inr (e, q) ↦ cc (rw (q, over_lines) at h)
    | inl (t, q) ↦
        over_lines-keeps P keeps lines t s' (after (matched line) t q) (rw (q, over_lines) at h)
  ]
    where
      after : (m : Option KeyValue) (t : S) → called m s ≡ ok t → P t
      after none t q = subst P (ok-injective q) p
      after (some (key, val)) t q = keeps key val s t p q

  -- What every call of the callback keeps holds after all of them.
  pub parse_key_values-keeps :
      (P : S → Type 0)
      → ((key val : Text) (s s' : S) → P s → callback key val s ≡ ok s' → P s')
      → (out : Text) (s s' : S) → P s
      → parse_key_values out s ≡ ok s'
      → P s'
  unfolding parse_key_values
  parse_key_values-keeps P keeps out s s' p h = over_lines-keeps P keeps (scan_lines out) s s' p h
