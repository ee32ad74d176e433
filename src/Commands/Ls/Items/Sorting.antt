-- ===== src/Commands/Ls/Items/Sorting.antt =====
-- What the order of the list keeps.
use p2box.Base.{
  fun_ext, text_eq, text_eq→eq, Bool-cases, inl, inr, false, ◌++◌, if◌then◌else◌, ◌∙◌, subst, arith,
  ◌≡◌, refl, ap, true, false, Text, text_eq_refl, lower, List, [], ◌∷◌,
}
use mathlib.Core.List.{map, Perm}
use mathlib.Core.List.Perm
use p2box.Commands.Ls.Items.{
  HostListItem, item_named, has_name, lower_names, sort_host_list_items_by_name,
}

-- No two items have one name in small letters.
abbrev pub IsDistinctLower : List HostListItem → Type 0
IsDistinctLower [] = Unit
IsDistinctLower (v ∷ items) = (has_name items (lower v.name) ≡ false) × IsDistinctLower items

-- Every name of these items, in small letters, is one of those.
abbrev AllNamed : List HostListItem → List HostListItem → Type 0
AllNamed items [] = Unit
AllNamed items (u ∷ sub) = (has_name items (lower u.name) ≡ true) × AllNamed items sub

AllNamed-cons :
    (v : HostListItem) (items sub : List HostListItem)
    → AllNamed items sub
    → AllNamed (v ∷ items) sub
AllNamed-cons v items [] h = tt
AllNamed-cons v items (u ∷ sub) (h, hs) = (rw h (ground arith), AllNamed-cons v items sub hs)

AllNamed-self : (items : List HostListItem) → AllNamed items items
AllNamed-self [] = tt
AllNamed-self (v ∷ items) =
    (rw (text_eq_refl (lower v.name)) refl, AllNamed-cons v items items (AllNamed-self items))

map-item_named_cons :
    (v : HostListItem) (items sub : List HostListItem)
    → AllNamed items sub
    → map (item_named (v ∷ items)) (lower_names sub) ≡ map (item_named items) (lower_names sub)
map-item_named_cons v items [] h = refl
map-item_named_cons v items (u ∷ sub) (h, hs) = rw (h, map-item_named_cons v items sub hs)

map-item_named :
    (items : List HostListItem)
    → IsDistinctLower items
    → map (item_named items) (lower_names items) ≡ items
map-item_named [] d = refl
map-item_named (v ∷ items) (h, d) =
    rw (h, text_eq_refl (lower v.name))
      (ap (λ r. v ∷ r)
        (map-item_named_cons v items items (AllNamed-self items) ∙ map-item_named items d))

-- If no two machines have one name in small letters, the sorted list has the items of the list that
-- is sorted, each as often as it stands there, in some order.
pub sort_host_list_items_by_name-Perm :
    (natural_sort : List Text → List Text)
    → ((names : List Text) → Perm (natural_sort names) names)
    → (items : List HostListItem) → IsDistinctLower items
    → Perm (sort_host_list_items_by_name natural_sort items) items
unfolding sort_host_list_items_by_name
sort_host_list_items_by_name-Perm natural_sort sorts items d =
    subst (Perm (map (item_named items) (natural_sort (lower_names items))))
      (map-item_named items d) (Perm.map (item_named items) (sorts (lower_names items)))

-- Lists that differ in one item, whose names agree in small letters.
module _ (later : List HostListItem) (a a' : HostListItem)
    (same : lower a.name ≡ lower a'.name) where
  lower_names-replaced :
      (front : List HostListItem)
      → lower_names (front ++ (a ∷ later)) ≡ lower_names (front ++ (a' ∷ later))
  lower_names-replaced [] = ap (λ n. n ∷ lower_names later) same
  lower_names-replaced (v ∷ front) = ap (λ ns. lower v.name ∷ ns) (lower_names-replaced front)

  has_name-replaced :
      (front : List HostListItem) (name : Text)
      → has_name (front ++ (a ∷ later)) name ≡ has_name (front ++ (a' ∷ later)) name
  has_name-replaced [] name = ap (λ n. if text_eq n name then true else has_name later name) same
  has_name-replaced (v ∷ front) name =
      ap (λ b. if text_eq (lower v.name) name then true else b) (has_name-replaced front name)

  item_named-later :
      (name : Text)
      → has_name later (lower a.name) ≡ true
      → item_named (a ∷ later) name ≡ item_named (a' ∷ later) name
  item_named-later name h = elim (Bool-cases (has_name later name)) [
    | inl e ↦ rw e refl
    | inr e ↦ elim (Bool-cases (text_eq (lower a.name) name)) [
      | inl t ↦ cc (e, h, ap (has_name later) (text_eq→eq (lower a.name) name t))
      | inr t ↦
          let t' : text_eq (lower a'.name) name ≡ false =
            subst (λ n. text_eq n name ≡ false) same t in
          rw (e, t, t') refl
    ]
  ]

  item_named-replaced :
      (front : List HostListItem) (name : Text)
      → has_name later (lower a.name) ≡ true
      → item_named (front ++ (a ∷ later)) name ≡ item_named (front ++ (a' ∷ later)) name
  item_named-replaced [] name h = item_named-later name h
  item_named-replaced (v ∷ front) name h =
      rw (has_name-replaced front name, item_named-replaced front name h) refl

  -- In a list of any length, a machine is not shown if one that comes after it has its name in
  -- small letters: whatever machine with such a name stands in its place, the same list is shown,
  -- for every way of sorting the names.
  pub sort_host_list_items_by_name_loses :
      (natural_sort : List Text → List Text) (front : List HostListItem)
      → has_name later (lower a.name) ≡ true
      → sort_host_list_items_by_name natural_sort (front ++ (a ∷ later))
        ≡ sort_host_list_items_by_name natural_sort (front ++ (a' ∷ later))
  unfolding sort_host_list_items_by_name
  sort_host_list_items_by_name_loses natural_sort front h =
      ap (λ (f : Text → HostListItem). map f (natural_sort (lower_names (front ++ (a ∷ later)))))
        (fun_ext (λ name. item_named-replaced front name h))
      ∙ ap (λ ns. map (item_named (front ++ (a' ∷ later))) (natural_sort ns))
          (lower_names-replaced front)
