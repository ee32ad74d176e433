-- ===== src/Go/Laws.antt =====
-- Inversion of a successful chain of calls.
use p2box.Base.{inr, inl, ◌⊎◌, ◌≡◌, refl, ap, arith}
use p2box.Go.{Error, wrap_with, map_err, Result, ok, err, Go, continue, ◌>>=◌}

module _ {W A B : Type 0} where
  pub continue-eq-ok :
      (r : Result A) (f : A → Go W B) (w : W) {b : B}
      → (continue f r w).0 ≡ ok b
      → (a : A) × (r ≡ ok a) × ((f a w).0 ≡ ok b)
  continue-eq-ok (ok a) f w h = (a, refl, h)
  continue-eq-ok (err e) f w h = cc

  -- A chain succeeds only if each part does.
  pub >>=-eq-ok :
      (m : Go W A) (f : A → Go W B) (w : W) {b : B}
      → ((m >>= f) w).0 ≡ ok b
      → (a : A) × ((m w).0 ≡ ok a) × ((f a (m w).1).0 ≡ ok b)
  >>=-eq-ok m f w h = continue-eq-ok (m w).0 f (m w).1 h

pub map_err-eq-ok :
    {A : Type 0} (f : Error → Error) (r : Result A) {a : A} → map_err f r ≡ ok a → r ≡ ok a
map_err-eq-ok f (ok b) h = h
map_err-eq-ok f (err e) h = ground arith

pub wrap_with-eq-ok :
    {W A : Type 0} (f : Error → Error) (m : Go W A) (w : W) {a : A}
    → (wrap_with f m w).0 ≡ ok a
    → (m w).0 ≡ ok a
wrap_with-eq-ok f m w h = map_err-eq-ok f (m w).0 h

pub Result-cases :
    {A : Type 0} (r : Result A) → ((a : A) × (r ≡ ok a)) ⊎ ((e : Error) × (r ≡ err e))
Result-cases (ok a) = inl (a, refl)
Result-cases (err e) = inr (e, refl)

pub ok-injective : {A : Type 0} {a b : A} → ◌≡◌ {A = Result A} (ok a) (ok b) → a ≡ b
ok-injective {A} {a} h = ap (value a) h
  where
    value : A → Result A → A
    value d (ok x) = x
    value d (err e) = d
