-- ===== src/Base/Bytes.antt =====
-- Text as the list of its bytes, where the program walks it, and what the program uses of the
-- packages `strings` and `bufio`.
use Prim.Native.Nat.{ℕ, ◌+◌}
use Prim.Native.Char.{code}
use Prim.Native.String.{String}
use mathlib.Core.Path.{◌≡◌, refl}
use mathlib.Core.Logic.{inl, inr}
use mathlib.Core.Bool.{Bool, true, false, not, ◌&&◌, ◌||◌}
use mathlib.Core.List.{List, [], ◌∷◌, ◌++◌}
use native.Mathlib.Omega.{arith}
use mathlib.Core.Option.{Option, none, some}
use p2box.Base.Tests.{leb, ==_iff, ◌==◌, if◌then◌else◌, Bool-cases}

abbrev pub Text : Type 0
Text = List ℕ

-- The code points of a text: its bytes, if it is ASCII.
abbrev pub codes : String → Text
codes String.[] = []
codes (String.◌∷◌ c s) = code c ∷ codes s

abbrev pub text_eq : Text → Text → Bool
text_eq [] [] = true
text_eq (x ∷ xs) (y ∷ ys) = (x == y) && text_eq xs ys
text_eq _ _ = false

pub text_eq_refl : (xs : Text) → text_eq xs xs ≡ true
text_eq_refl [] = refl
text_eq_refl (x ∷ xs) = ground (arith, text_eq_refl xs)

pub text_eq→eq : (xs ys : Text) → text_eq xs ys ≡ true → xs ≡ ys
text_eq→eq [] [] h = refl
text_eq→eq (x ∷ xs) (y ∷ ys) h = ground (arith, text_eq→eq xs ys)
text_eq→eq [] (y ∷ ys) h = cc
text_eq→eq (x ∷ xs) [] h = cc

-- strings.HasPrefix
abbrev pub has_prefix : Text → Text → Bool
has_prefix s [] = true
has_prefix [] (p ∷ ps) = false
has_prefix (c ∷ s) (p ∷ ps) = (c == p) && has_prefix s ps

-- strings.Contains
abbrev pub contains : Text → Text → Bool
contains [] sub = has_prefix [] sub
contains (c ∷ s) sub = has_prefix (c ∷ s) sub || contains s sub

-- One more byte in front of the first part.
abbrev pub onto_first : ℕ → List Text → List Text
onto_first c [] = (c ∷ []) ∷ []
onto_first c (p ∷ ps) = (c ∷ p) ∷ ps

-- strings.Split at a separator of one byte
abbrev pub split : Text → ℕ → List Text
split [] sep = [] ∷ []
split (c ∷ s) sep = let rest = split s sep in if c == sep then [] ∷ rest else onto_first c rest

-- No byte of the text is `sep`.
abbrev pub Lacks : Text → ℕ → Type 0
Lacks [] sep = Unit {0}
Lacks (c ∷ s) sep = ((c == sep) ≡ false) × Lacks s sep

abbrev pub lacks : Text → ℕ → Bool
lacks [] sep = true
lacks (c ∷ s) sep = not (c == sep) && lacks s sep

pub Lacks-lacks : (s : Text) (sep : ℕ) → lacks s sep ≡ true → Lacks s sep
Lacks-lacks [] sep h = tt
Lacks-lacks (c ∷ s) sep h = (ground arith, Lacks-lacks s sep (ground arith))

pub split-Lacks : (s : Text) (sep : ℕ) → Lacks s sep → split s sep ≡ s ∷ []
split-Lacks [] sep h = refl
split-Lacks (c ∷ s) sep (h, hs) = rw (split-Lacks s sep hs, h)

pub split-append :
    (s t : Text) (sep : ℕ) → Lacks s sep → split (s ++ (sep ∷ t)) sep ≡ s ∷ split t sep
split-append [] t sep h = ground arith
split-append (c ∷ s) t sep (h, hs) = rw (split-append s t sep hs, h)

pub Lacks-append : (s t : Text) (sep : ℕ) → Lacks s sep → Lacks t sep → Lacks (s ++ t) sep
Lacks-append [] t sep h k = k
Lacks-append (c ∷ s) t sep (h, hs) k = (h, Lacks-append s t sep hs k)

-- A carriage return at the end of a line is dropped.
abbrev pub drop_return : Text → Text
drop_return [] = []
drop_return (c ∷ []) = if c == 13 then [] else c ∷ []
drop_return (c ∷ d ∷ s) = c ∷ drop_return (d ∷ s)

-- What is left of the parts of a split once an empty last part is dropped.
abbrev pub scanned : List Text → List Text
scanned [] = []
scanned ([] ∷ []) = []
scanned ((c ∷ p) ∷ []) = drop_return (c ∷ p) ∷ []
scanned (p ∷ q ∷ ps) = drop_return p ∷ scanned (q ∷ ps)

-- The lines that a `bufio.Scanner` gives.
abbrev pub scan_lines : Text → List Text
scan_lines s = scanned (split s b'\n')

-- The parts of a text are not none.
pub split-cons : (t : Text) (sep : ℕ) → (p : Text) × (ps : List Text) × (split t sep ≡ p ∷ ps)
split-cons [] sep = ([], [], refl)
split-cons (c ∷ t) sep = elim (Bool-cases (c == sep)) [
  | inl e ↦ ([], split t sep, rw e)
  | inr e ↦ let (p, ps, q) = split-cons t sep in (c ∷ p, ps, rw (e, q))
]

scanned-cons :
    (p : Text) (qs : List Text) {q : Text} {ps : List Text}
    → qs ≡ q ∷ ps
    → scanned (p ∷ qs) ≡ drop_return p ∷ scanned qs
scanned-cons [] qs e = rw e
scanned-cons (c ∷ p) qs e = rw e

-- A line in front of a text is the first line that a scanner gives.
pub scan_lines-append :
    (line t : Text)
    → Lacks line b'\n'
    → scan_lines (line ++ (b'\n' ∷ t)) ≡ drop_return line ∷ scan_lines t
scan_lines-append line t h =
    let (p, ps, e) = split-cons t b'\n' in
    rw (split-append line t b'\n' h) (scanned-cons line (split t b'\n') e)

-- strings.TrimSpace on ASCII
abbrev pub is_blank : ℕ → Bool
is_blank c = (c == 32) || ((c == 9) || ((c == 10) || ((c == 11) || ((c == 12) || (c == 13)))))

abbrev pub trim_left : Text → Text
trim_left [] = []
trim_left (c ∷ s) = let rest = trim_left s in if is_blank c then rest else c ∷ s

abbrev pub onto_trimmed : ℕ → Text → Text
onto_trimmed c [] = if is_blank c then [] else c ∷ []
onto_trimmed c (d ∷ s) = c ∷ d ∷ s

abbrev pub trim_right : Text → Text
trim_right [] = []
trim_right (c ∷ s) = onto_trimmed c (trim_right s)

abbrev pub trim_space : Text → Text
trim_space s = trim_right (trim_left s)

-- strings.ToLower on ASCII
abbrev pub lower : Text → Text
lower [] = []
lower (c ∷ s) = (if leb b'A' c && leb c b'Z' then c + 32 else c) ∷ lower s

abbrev pub onto_before : ℕ → Option (Text × Text) → Option (Text × Text)
onto_before c none = none
onto_before c (some (before, after)) = some (c ∷ before, after)

-- The two parts of strings.SplitN(s, sep, 2), where there is a separator.
abbrev pub cut : Text → ℕ → Option (Text × Text)
cut [] sep = none
cut (c ∷ s) sep = let rest = cut s sep in if c == sep then some ([], s) else onto_before c rest

pub cut-append : (s t : Text) (sep : ℕ) → Lacks s sep → cut (s ++ (sep ∷ t)) sep ≡ some (s, t)
cut-append [] t sep h = let same : (sep == sep) ≡ true = (==_iff sep sep).1 refl in rw same
cut-append (c ∷ s) t sep (h, hs) = rw (h, cut-append s t sep hs)
