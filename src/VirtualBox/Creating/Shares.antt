-- ===== src/VirtualBox/Creating/Shares.antt =====
-- The share that is asked for, and the number of CPUs.
use p2box.Base.{
  ℕ, ℤ, ◌≡◌, ◌≤◌, refl, ap, sym, ◌∙◌, true, false, Bool-cases, inl, inr, Text, Lacks, split,
  split-Lacks, split-cons, List, [], ◌∷◌, ◌++◌, arith, ◌==◌, ==_iff, onto_first,
}
use p2box.VirtualBox.Creating.{cpus_of, join_with, last_and_others, parse_share_folder, greater}
use p2box.VirtualBox.Version.{less}

split-append_last :
    (s t : Text) (sep : ℕ) → Lacks t sep → split (s ++ (sep ∷ t)) sep ≡ split s sep ++ (t ∷ [])
split-append_last [] t sep h =
    let same : (sep == sep) ≡ true = (==_iff sep sep).1 refl in rw (same, split-Lacks t sep h)
split-append_last (c ∷ s) t sep h = elim (Bool-cases (c == sep)) [
  | inl e ↦ rw (e, split-append_last s t sep h)
  | inr e ↦ let (p, ps, q) = split-cons s sep in rw (e, split-append_last s t sep h, q)
]

join_with-[] :
    (sep : ℕ) (qs : List Text) {p : Text} {ps : List Text}
    → qs ≡ p ∷ ps
    → join_with sep ([] ∷ qs) ≡ sep ∷ join_with sep qs
join_with-[] sep [] e = cc e
join_with-[] sep (q ∷ qs) e = refl

join_with-onto_first :
    (c sep : ℕ) (qs : List Text) {p : Text} {ps : List Text}
    → qs ≡ p ∷ ps
    → join_with sep (onto_first c qs) ≡ c ∷ join_with sep qs
join_with-onto_first c sep [] e = cc
join_with-onto_first c sep (q ∷ []) e = refl
join_with-onto_first c sep (q ∷ r ∷ qs) e = refl

join_with-split : (s : Text) (sep : ℕ) → join_with sep (split s sep) ≡ s
join_with-split [] sep = refl
join_with-split (c ∷ s) sep =
    let (p, ps, q) = split-cons s sep in
    elim (Bool-cases (c == sep)) [
      | inl e ↦
          let same : c ≡ sep = (==_iff c sep).0 e in
          rw e (
            join_with-[] sep (split s sep) q
            ∙ ap (λ r. sep ∷ r) (join_with-split s sep)
            ∙ ap (λ d. d ∷ s) (sym same))
      | inr e ↦
          rw e
            (join_with-onto_first c sep (split s sep) q ∙ ap (λ r. c ∷ r) (join_with-split s sep))
    ]

last_and_others-append :
    (p : Text) (ps : List Text) (t : Text) → last_and_others ((p ∷ ps) ++ (t ∷ [])) ≡ (p ∷ ps, t)
last_and_others-append p [] t = refl
last_and_others-append p (q ∷ ps) t = ap (λ r. (p ∷ r.0, r.1)) (last_and_others-append q ps t)

-- A share that is asked for as a directory, a colon and a name without colons is read as that
-- directory and that name, whatever colons the directory has.
pub parse_share_folder-append :
    (dir name : Text) → Lacks name b':' → parse_share_folder (dir ++ (b':' ∷ name)) ≡ (dir, name)
unfolding parse_share_folder
parse_share_folder-append dir name h =
    let (p, ps, q) = split-cons dir b':' in
    let parts : split (dir ++ (b':' ∷ name)) b':' ≡ (p ∷ ps) ++ (name ∷ []) =
      split-append_last dir name b':' h ∙ ap (λ qs. qs ++ (name ∷ [])) q in
    ap (λ r. (join_with b':' r.0, r.1))
      (ap last_and_others parts ∙ last_and_others-append p ps name)
    ∙ ap (λ d. (d, name)) (ap (join_with b':') (sym q) ∙ join_with-split dir b':')

-- On a host of at least one CPU, a machine gets from 1 to 32, and the number that was asked for if
-- that is among these.
pub cpus_of_bounds :
    (n : ℕ) (cpu : ℤ)
    → 1 ≤ n
    → (less (cpus_of (ℤ.pos n) cpu) 1 ≡ false)
      × (greater (cpus_of (ℤ.pos n) cpu) 32 ≡ false)
      × (less cpu 1 ≡ false → greater cpu 32 ≡ false → cpus_of (ℤ.pos n) cpu ≡ cpu)
unfolding cpus_of
cpus_of_bounds n (ℤ.pos m) h = ground arith
cpus_of_bounds n (ℤ.negsuc m) h = ground arith
