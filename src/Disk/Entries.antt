-- ===== src/Disk/Entries.antt =====
-- The files of a disk: what stands at which path.
use p2box.Base.{
  ◌++◌, ◌≡◌, ◌↔◌, refl, ap, Bool, true, false, ◌&&◌, String, List, [], ◌∷◌, Option, none, some,
  arith, str_eq, eq_iff, if◌then◌else◌,
}

-- The elements of a cleaned absolute path.
abbrev pub FilePath : Type 0
FilePath = List String

pub data Node : Type 0 where
  dir : Node
  file : String → Node

abbrev pub path_eq : FilePath → FilePath → Bool
path_eq [] [] = true
path_eq (x ∷ xs) (y ∷ ys) = str_eq x y && path_eq xs ys
path_eq _ _ = false

path_eq→eq : (xs ys : FilePath) → path_eq xs ys ≡ true → xs ≡ ys
path_eq→eq [] [] h = refl
path_eq→eq (x ∷ xs) (y ∷ ys) h = ground (arith, eq_iff x y, path_eq→eq xs ys)
path_eq→eq [] (y ∷ ys) h = cc
path_eq→eq (x ∷ xs) [] h = cc

pub path_eq_refl : (xs : FilePath) → path_eq xs xs ≡ true
path_eq_refl [] = refl
path_eq_refl (x ∷ xs) = ground (arith, eq_iff x x, path_eq_refl xs)

pub path_eq_iff : (xs ys : FilePath) → (path_eq xs ys ≡ true) ↔ (xs ≡ ys)
path_eq_iff xs ys = (path_eq→eq xs ys, λ e. rw e (path_eq_refl ys))

-- `k` is `p` or stands below it.
abbrev pub is_under : FilePath → FilePath → Bool
is_under [] k = true
is_under (x ∷ p) [] = false
is_under (x ∷ p) (y ∷ k) = str_eq x y && is_under p k

abbrev pub Files : Type 0
Files = List (FilePath × Node)

unfoldable pub lookup : FilePath → Files → Option Node
lookup k [] = none
lookup k ((j, v) ∷ m) = if path_eq j k then some v else lookup k m

unfoldable pub erase : FilePath → Files → Files
erase k [] = []
erase k ((j, v) ∷ m) = let rest = erase k m in if path_eq j k then rest else (j, v) ∷ rest

unfoldable pub insert : FilePath → Node → Files → Files
unfolding erase
insert k v m = (k, v) ∷ erase k m

-- Without a path and all that stands below it.
unfoldable pub erase_tree : FilePath → Files → Files
erase_tree p [] = []
erase_tree p ((j, v) ∷ m) =
    let rest = erase_tree p m in if is_under p j then rest else (j, v) ∷ rest

pub lookup-erase :
    (k j : FilePath) (m : Files) → lookup j (erase k m) ≡ (if path_eq k j then none else lookup j m)
unfolding lookup erase
lookup-erase k j [] = ground arith
lookup-erase k j ((i, v) ∷ m) =
    ground (arith, lookup-erase k j m, path_eq_iff i k, path_eq_iff i j, path_eq_iff k j)

pub lookup-insert :
    (k j : FilePath) (v : Node) (m : Files)
    → lookup j (insert k v m) ≡ (if path_eq k j then some v else lookup j m)
unfolding lookup insert
lookup-insert k j v m = ground (arith, lookup-erase k j m)

pub lookup-erase_tree :
    (p j : FilePath) (m : Files)
    → lookup j (erase_tree p m) ≡ (if is_under p j then none else lookup j m)
unfolding lookup erase_tree
lookup-erase_tree p j [] = ground arith
lookup-erase_tree p j ((i, v) ∷ m) =
    ground (arith, lookup-erase_tree p j m, path_eq_iff i j, ap (is_under p))

pub lookup-insert_self : (k : FilePath) (v : Node) (m : Files) → lookup k (insert k v m) ≡ some v
lookup-insert_self k v m = rw (lookup-insert, path_eq_refl k)

pub lookup-erase_self : (k : FilePath) (m : Files) → lookup k (erase k m) ≡ none
lookup-erase_self k m = rw (lookup-erase, path_eq_refl k)

pub path_eq_symm : (k j : FilePath) → path_eq k j ≡ false → path_eq j k ≡ false
path_eq_symm k j h = ground (arith, path_eq_iff k j, path_eq_iff j k)

-- Two names in one directory.
pub path_eq-append :
    (p : FilePath) (a b : String)
    → str_eq a b ≡ false
    → path_eq (p ++ (a ∷ [])) (p ++ (b ∷ [])) ≡ false
path_eq-append [] a b h = rw h
path_eq-append (x ∷ p) a b h = ground (arith, path_eq-append p a b h)
