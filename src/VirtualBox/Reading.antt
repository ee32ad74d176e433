-- ===== src/VirtualBox/Reading.antt =====
-- Reading the state of a machine from the output of VBoxManage.
use p2box.VirtualBox.Machine.{
  state_answer, Machine, get_state, is_word, word_before_quote, state_on_line, vm_state,
  state_of_word,
}
use p2box.Base.{
  ℕ, ◌≡◌, refl, ap, ◌∙◌, true, false, Text, codes, split, List, [], ◌∷◌, ◌++◌, none, some, arith,
  ◌==◌,
}
use p2box.VirtualBox.Vbm.{VbmAnswer}

-- Letters, digits and underscores, and at least one.
abbrev pub AllWord : Text → Type 0
AllWord [] = Unit
AllWord (c ∷ s) = (is_word c ≡ true) × AllWord s

abbrev pub IsWord : Text → Type 0
IsWord [] = ⊥
IsWord (c ∷ s) = AllWord (c ∷ s)

-- VMState="word", and what follows on the line
abbrev pub state_line : Text → Text → Text
state_line word rest = codes "VMState=\"" ++ (word ++ (b'"' ∷ rest))

-- No line of the list tells a state.
abbrev pub TellsNothing : List Text → Type 0
TellsNothing [] = Unit
TellsNothing (line ∷ lines) = (state_on_line line ≡ none) × TellsNothing lines

is_word-quote : (c : ℕ) → is_word c ≡ true → (c == b'"') ≡ false
is_word-quote c h = ground arith

word_before_quote-append :
    (word rest : Text) → AllWord word → word_before_quote (word ++ (b'"' ∷ rest)) ≡ some word
word_before_quote-append [] rest h = refl
word_before_quote-append (c ∷ word) rest (h, hs) =
    rw (is_word-quote c h, h, word_before_quote-append word rest hs)

state_on_line-state_line :
    (word rest : Text) → IsWord word → state_on_line (state_line word rest) ≡ some word
state_on_line-state_line [] rest h = absurd h
state_on_line-state_line (c ∷ word) rest h = rw (word_before_quote-append (c ∷ word) rest h)

vm_state-append :
    (before after : List Text) (word rest : Text)
    → TellsNothing before
    → IsWord word
    → vm_state (before ++ (state_line word rest ∷ after)) ≡ some word
vm_state-append [] after word rest h hw = rw (state_on_line-state_line word rest hw, vm_state)
vm_state-append (line ∷ before) after word rest (n, h) hw =
    rw (n, vm_state) (vm_state-append before after word rest h hw)

state_answer_told :
    (a : VbmAnswer) (word : Text)
    → a.2 ≡ none
    → vm_state (split a.0 b'\n') ≡ some word
    → state_answer a ≡ (state_of_word (some word), none)
state_answer_told (out, errors, none) word e told = rw told
state_answer_told (out, errors, some x) word e told = cc e

module _ {W : Type 0} (d : Machine W) where
  -- The description of the machine, as VBoxManage prints it.
  abbrev pub described : W → VbmAnswer × W
  described = d.vbox.run_out_err (codes "showvminfo" ∷ d.name ∷ codes "--machinereadable" ∷ [])

  -- If VBoxManage describes the machine without an error, the state is the one that the first line
  -- with a word in quotes behind `VMState=` tells, whatever the other lines are.
  pub get_state_reads :
      (before after : List Text) (word rest : Text) (w : W)
      → (described w).0.2 ≡ none
      → split (described w).0.0 b'\n' ≡ before ++ (state_line word rest ∷ after)
      → TellsNothing before
      → IsWord word
      → get_state d w ≡ ((state_of_word (some word), none), (described w).1)
  unfolding get_state
  get_state_reads before after word rest w fine lines h hw =
      ap (λ s. (s, (described w).1))
        (state_answer_told (described w).0 word fine
          (ap vm_state lines ∙ vm_state-append before after word rest h hw))
