-- ===== src/Commands/Create/Finds.antt =====
-- commands/create.go: which driver the arguments name.
use p2box.Base.{
  ap, Bool, false, Text, codes, List, [], ◌∷◌, ◌++◌, none, text_eq, ◌||◌, has_prefix, split-Lacks,
  Lacks, ◌≡◌, ◌≢◌, refl, arith,
}
use p2box.Commands.Create.Lookup.{hack_at, flag_hack_lookup, or_text, outer_driver_name}

abbrev pub driver_flag : Text
driver_flag = codes "--driver"

-- The argument is the flag or its short form, alone or with a value.
abbrev pub names_driver : Text → Bool
names_driver arg =
    text_eq arg (codes "-d")
    || text_eq arg driver_flag
    || has_prefix arg (codes "-d=")
    || has_prefix arg (codes "--driver=")

abbrev pub NoneNames : List Text → Type 0
NoneNames [] = Unit {0}
NoneNames (arg ∷ args) = (names_driver arg ≡ false) × NoneNames args

hack_at-none :
    (arg : Text) (rest : List Text) → names_driver arg ≡ false → hack_at driver_flag arg rest ≡ none
hack_at-none arg rest h = ground arith

lookup_skips :
    (before args : List Text)
    → NoneNames before
    → flag_hack_lookup driver_flag (before ++ args) ≡ flag_hack_lookup driver_flag args
unfolding flag_hack_lookup
lookup_skips [] args h = refl
lookup_skips (arg ∷ before) args (h, hs) =
    rw (hack_at-none arg (before ++ args) h) (lookup_skips before args hs)

nothing_named : (args : List Text) → NoneNames args → flag_hack_lookup driver_flag args ≡ []
unfolding flag_hack_lookup
nothing_named [] h = refl
nothing_named (arg ∷ args) (h, hs) = rw (hack_at-none arg args h) (nothing_named args hs)

or_text_first : (value other : Text) → value ≢ [] → or_text value other ≡ value
or_text_first [] other h = absurd (h refl)
or_text_first (c ∷ s) other h = refl

-- The driver whose flags the command asks for is the one that the first argument of the form
-- --driver=value, -d=value, --driver value or -d value names, if the value has no '='; where no
-- argument has one of the forms, it is that of the environment, or else virtualbox.
pub outer_driver_name_finds :
    (env value : Text) (before after : List Text)
    → NoneNames before
    → Lacks value b'='
    → value ≢ []
    → (outer_driver_name env (before ++ ((codes "--driver=" ++ value) ∷ after)) ≡ value)
      × (outer_driver_name env (before ++ ((codes "-d=" ++ value) ∷ after)) ≡ value)
      × (outer_driver_name env (before ++ (codes "--driver" ∷ value ∷ after)) ≡ value)
      × (outer_driver_name env (before ++ (codes "-d" ∷ value ∷ after)) ≡ value)
      × (outer_driver_name env before ≡ or_text env (codes "virtualbox"))
unfolding outer_driver_name flag_hack_lookup
outer_driver_name_finds env value before after h l n =
    let other = or_text env (codes "virtualbox") in
    (
      rw (lookup_skips before ((codes "--driver=" ++ value) ∷ after) h, split-Lacks value b'=' l)
          (or_text_first value other n),
      rw (lookup_skips before ((codes "-d=" ++ value) ∷ after) h, split-Lacks value b'=' l)
          (or_text_first value other n),
      rw (lookup_skips before (codes "--driver" ∷ value ∷ after) h) (or_text_first value other n),
      rw (lookup_skips before (codes "-d" ∷ value ∷ after) h) (or_text_first value other n),
      ap (λ v. or_text v other) (nothing_named before h),
    )
