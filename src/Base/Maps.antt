-- ===== src/Base/Maps.antt =====
-- `Map<string, T>`: an association list in the order of insertion.
use mathlib.Core.Path.{◌≡◌}
use mathlib.Core.Option.{Option, none, some}
use mathlib.Core.List.{List, [], ◌∷◌}
use native.Mathlib.Omega.{arith}
use sanmarino_crm.Base.Equality.{Text, text_eq, ◌==◌, if◌then◌else◌}

module _ {A : Type 0} where
  unfoldable pub get : Text → List (Text × A) → Option A
  get k [] = none
  get k ((j, a) ∷ m) = if j == k then some a else get k m

  unfoldable pub set : Text → A → List (Text × A) → List (Text × A)
  set k a [] = (k, a) ∷ []
  set k a ((j, b) ∷ m) = let rest = set k a m in if j == k then (j, a) ∷ m else (j, b) ∷ rest

  unfoldable pub delete : Text → List (Text × A) → List (Text × A)
  delete k [] = []
  delete k ((j, a) ∷ m) = let rest = delete k m in if j == k then rest else (j, a) ∷ rest

  pub get-set :
      (k j : Text) (a : A) (m : List (Text × A))
      → get k (set j a m) ≡ (if j == k then some a else get k m)
  unfolding get set
  get-set k j a [] = ground arith
  get-set k j a ((i, b) ∷ m) = ground (arith, get-set k j a m)

  pub get-delete :
      (k j : Text) (m : List (Text × A)) → get k (delete j m) ≡ (if j == k then none else get k m)
  unfolding get delete
  get-delete k j [] = ground arith
  get-delete k j ((i, b) ∷ m) = ground (arith, get-delete k j m)
