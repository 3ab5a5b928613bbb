-- ===== src/Base/Sums.antt =====
-- Sums of a column over the rows that pass a test.
use Prim.Native.Nat.{ℕ, ◌+◌, ◌≤◌}
use mathlib.Core.Path.{◌≡◌, refl}
use mathlib.Core.Logic.{◌≢◌}
use mathlib.Core.Bool.{Bool, false, ◌&&◌}
use mathlib.Core.List.{List, [], ◌∷◌, ◌++◌, map}
use native.Mathlib.Omega.{arith}
use sanmarino_crm.Base.Equality.{Text, text_eq, ◌==◌, contains, Bool-cases, if◌then◌else◌}
use mathlib.Core.Option.{some, some-injective}
use mathlib.Core.Logic.{inl, inr}
use sanmarino_crm.Base.Lists.{All, Distinct, select, total, change, first}
use sanmarino_crm.Base.Members.{Mem, here, there, All-Mem}

module _ {ℓ} {A : Type ℓ} (p q : A → Bool) (f g : A → ℕ) where
  -- Sums are equal that have equal parts.
  pub total_cong :
      ((x : A) → (if p x then f x else 0) ≡ (if q x then g x else 0))
      → (l : List A) → total p f l ≡ total q g l
  unfolding total
  total_cong h [] = refl
  total_cong h (x ∷ xs) = rw (h x, total_cong h xs) refl

  pub total-select : (l : List A) → total p f (select q l) ≡ total (λ x. q x && p x) f l
  unfolding total select
  total-select [] = refl
  total-select (x ∷ xs) = ground (arith, total-select xs)

  pub total_mono :
      ((x : A) → (if p x then f x else 0) ≤ (if q x then g x else 0))
      → (l : List A) → total p f l ≤ total q g l
  unfolding total
  total_mono h [] = omega arith
  total_mono h (x ∷ xs) = omega (arith, h x, total_mono h xs)

pub total_each {ℓ} :
    {A : Type ℓ} (p : A → Bool) (f g : A → ℕ)
    → ((a : A) → f a ≡ g a)
    → (l : List A) → total p f l ≡ total p g l
unfolding total
total_each p f g h [] = refl
total_each p f g h (x ∷ xs) = rw (h x, total_each p f g h xs) refl

pub total-append {ℓ} :
    {A : Type ℓ} (p : A → Bool) (f : A → ℕ) (xs ys : List A)
    → total p f (xs ++ ys) ≡ total p f xs + total p f ys
unfolding total
total-append p f [] ys = omega arith
total-append p f (x ∷ xs) ys = omega (arith, total-append p f xs ys)

module _ {A : Type 0} (key : A → Text) (g : A → ℕ) where
  -- A key that no row has adds nothing up.
  pub total_absent :
      (k : Text) (l : List A) → All (λ x. key x ≢ k) l → total (λ x. key x == k) g l ≡ 0
  unfolding total
  total_absent k [] h = refl
  total_absent k (x ∷ xs) h = ground (arith, h.0, total_absent k xs h.1)

  pub total_not_contained :
      (k : Text) (l : List A) → contains (map key l) k ≡ false → total (λ x. key x == k) g l ≡ 0
  unfolding total
  total_not_contained k [] h = refl
  total_not_contained k (x ∷ xs) h = ground (arith, total_not_contained k xs)

  -- Among distinct keys the sum over one key is the row that has it.
  pub total-Distinct :
      (l : List A) {r : A} → Distinct key l → Mem r l → total (λ x. key x == key r) g l ≡ g r
  unfolding total
  total-Distinct [] d m = elim m [ ]
  total-Distinct (x ∷ xs) d here = ground (arith, total_absent (key x) xs d.0)
  total-Distinct (x ∷ xs) {r} d (there m) =
      let away : key r ≢ key x = All-Mem (λ y. key y ≢ key x) xs d.0 m in
      ground (arith, away, total-Distinct xs d.1 m)

module _ {A : Type 0} (key : A → Text) (p : A → Bool) (f : A → ℕ) (g : A → A) (k : Text) where
  -- A change of rows that are not there leaves a sum as it is.
  total-change_absent :
      (l : List A) → All (λ x. key x ≢ k) l → total p f (change (λ x. key x == k) g l) ≡ total p f l
  unfolding total change
  total-change_absent [] h = refl
  total-change_absent (x ∷ xs) h = ground (arith, h.0, total-change_absent xs h.1)

  -- Among distinct keys a change moves a sum by what it makes of the row that has the key.
  pub total-change_found :
      (l : List A) {a : A}
      → Distinct key l
      → first (λ x. key x == k) l ≡ some a
      → total p f (change (λ x. key x == k) g l) + (if p a then f a else 0)
        ≡ total p f l + (if p (g a) then f (g a) else 0)
  unfolding total change first
  total-change_found [] d e = absurd (cc)
  total-change_found (x ∷ xs) {a} d e = elim (Bool-cases (key x == k)) [
    | inl t ↦
        let same : key x ≡ k = ground arith in
        let found : x ≡ a = some-injective x a (rw t at e) in
        let rest : total p f (change (λ y. key y == k) g xs) ≡ total p f xs =
          total-change_absent xs (rw same at d.0) in
        rw (← found, t, rest) (omega arith)
    | inr n ↦ let rest = total-change_found xs d.1 (rw n at e) in rw n (omega (arith, rest))
  ]
