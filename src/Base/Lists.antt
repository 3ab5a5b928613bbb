-- ===== src/Base/Lists.antt =====
-- Rows of a table as lists: selection, change and sums by a Boolean test.
use Prim.Native.Nat.{ℕ, suc, ◌+◌}
use mathlib.Core.Path.{◌≡◌, refl, sym, ◌∙◌, ap, subst}
use mathlib.Core.Bool.{Bool, true, false}
use mathlib.Core.Option.{Option, none, some}
use mathlib.Core.List.{List, [], ◌∷◌}
use native.Mathlib.Omega.{arith}
use mathlib.Core.Option.{some-injective}
use mathlib.Core.Logic.{inl, inr, ◌≢◌}
use sanmarino_crm.Base.Equality.{if◌then◌else◌, Bool-cases, Text, ◌==◌, text_eq}

module _ {ℓ} {A : Type ℓ} where
  abbrev pub length : List A → ℕ
  length [] = 0
  length (x ∷ xs) = suc (length xs)

  -- The first element that passes the test.
  unfoldable pub first : (A → Bool) → List A → Option A
  first p [] = none
  first p (x ∷ xs) = if p x then some x else first p xs

  unfoldable pub any : (A → Bool) → List A → Bool
  any p [] = false
  any p (x ∷ xs) = if p x then true else any p xs

  unfoldable pub select : (A → Bool) → List A → List A
  select p [] = []
  select p (x ∷ xs) = let rest = select p xs in if p x then x ∷ rest else rest

  -- Every element that passes the test is replaced.
  unfoldable pub change : (A → Bool) → (A → A) → List A → List A
  change p f [] = []
  change p f (x ∷ xs) = (if p x then f x else x) ∷ change p f xs

  -- The sum of a column over the elements that pass the test.
  unfoldable pub total : (A → Bool) → (A → ℕ) → List A → ℕ
  total p f [] = 0
  total p f (x ∷ xs) = (if p x then f x else 0) + total p f xs

module _ {ℓ κ} {A : Type ℓ} where
  abbrev pub All : (A → Type κ) → List A → Type κ
  All P [] = Unit
  All P (x ∷ xs) = P x × All P xs

  -- What `first` finds passes the test, and has what all the elements have.
  pub All-first :
      (P : A → Type κ) (p : A → Bool) (l : List A) {a : A}
      → All P l
      → first p l ≡ some a
      → P a × (p a ≡ true)
  unfolding first
  All-first P p [] h e = absurd (cc)
  All-first P p (x ∷ xs) {a} h e = elim (Bool-cases (p x)) [
    | inl t ↦ let same : x ≡ a = some-injective x a (rw t at e) in rw (← same) (h.0, t)
    | inr f ↦ All-first P p xs h.1 (rw f at e)
  ]

  pub All-Unit : (l : List A) → All (λ _. Unit {κ}) l
  All-Unit [] = tt
  All-Unit (x ∷ xs) = (tt, All-Unit xs)

  pub All-mono : (P Q : A → Type κ) (l : List A) → ((a : A) → P a → Q a) → All P l → All Q l
  All-mono P Q [] f h = tt
  All-mono P Q (x ∷ xs) f h = (f x h.0, All-mono P Q xs f h.1)

module _ {ℓ κ μ} {A : Type ℓ} (P : A → Type κ) (Q : A → Type μ) (p : A → Bool) (f : A → A) where
  -- A change keeps what holds of all, if it does so where the test passes and where it fails.
  pub All-change :
      (l : List A)
      → ((a : A) → P a → p a ≡ true → Q (f a))
      → ((a : A) → P a → p a ≡ false → Q a)
      → All P l
      → All Q (change p f l)
  unfolding change
  All-change [] hit miss h = tt
  All-change (x ∷ xs) hit miss h = elim (Bool-cases (p x)) [
    | inl t ↦ rw t (hit x h.0 t, All-change xs hit miss h.1)
    | inr e ↦ rw e (miss x h.0 e, All-change xs hit miss h.1)
  ]

module _ {ℓ} {A : Type ℓ} (key : A → Text) where
  -- No two rows have the same key.
  abbrev pub Distinct : List A → Type 0
  Distinct [] = Unit
  Distinct (x ∷ xs) = All (λ y. key y ≢ key x) xs × Distinct xs

pub first-test {ℓ} :
    {A : Type ℓ} (p : A → Bool) (l : List A) {a : A} → first p l ≡ some a → p a ≡ true
first-test p l e = (All-first (λ _. Unit {0}) p l (All-Unit l) e).1

module _ {ℓ κ μ} {A : Type ℓ} where
  pub All-zip :
      (P : A → Type κ) (Q : A → Type μ) (l : List A) → All P l → All Q l → All (λ a. P a × Q a) l
  All-zip P Q [] h k = tt
  All-zip P Q (x ∷ xs) h k = ((h.0, k.0), All-zip P Q xs h.1 k.1)

module _ {ℓ} {A : Type ℓ} (key : A → Text) (p : A → Bool) (f : A → A)
    (same : (a : A) → key (f a) ≡ key a) where
  -- A change that keeps the keys keeps them distinct, and neither adds nor drops one.
  pub All-key-change :
      (k : Text) (l : List A) → All (λ a. key a ≢ k) l → All (λ a. key a ≢ k) (change p f l)
  All-key-change k l =
      All-change (λ a. key a ≢ k) (λ a. key a ≢ k) p f l (λ a n t e. n (sym (same a) ∙ e))
        (λ a n t. n)

  pub All-key-change_inv :
      (k : Text) (l : List A) → All (λ a. key a ≢ k) (change p f l) → All (λ a. key a ≢ k) l
  unfolding change
  All-key-change_inv k [] h = tt
  All-key-change_inv k (x ∷ xs) h = (
    elim (Bool-cases (p x)) [ inl t ↦ λ e. (rw t at h.0) (same x ∙ e) | inr n ↦ rw n at h.0 ],
    All-key-change_inv k xs h.1,
  )

  pub change-Distinct : (l : List A) → Distinct key l → Distinct key (change p f l)
  unfolding change
  change-Distinct [] h = tt
  change-Distinct (x ∷ xs) h = elim (Bool-cases (p x)) [
    | inl t ↦ rw (t, same x) (All-key-change (key x) xs h.0, change-Distinct xs h.1)
    | inr n ↦ rw n (All-key-change (key x) xs h.0, change-Distinct xs h.1)
  ]

module _ {ℓ κ μ} {A : Type ℓ} (key : A → Text) (P : A → Type κ) (Q : A → Type μ) (p : A → Bool)
    (f : A → A) (k : Text) where
  -- An update by the primary key of the row that a query has found touches that row alone.
  pub All-change_found :
      (l : List A) {a : A}
      → Distinct key l
      → first p l ≡ some a
      → ((x : A) → p x ≡ true → key x ≡ k)
      → All P l
      → Q (f a)
      → ((x : A) → P x → key x ≢ k → Q x)
      → All Q (change (λ r. key r == k) f l)
  unfolding change first
  All-change_found [] d e only h hit miss = absurd (cc)
  All-change_found (x ∷ xs) {a} d e only h hit miss = elim (Bool-cases (p x)) [
    | inl t ↦
        let here : key x ≡ k = only x t in
        let found : x ≡ a = some-injective x a (rw t at e) in
        (
          ground (arith),
          All-change (λ y. P y × (key y ≢ key x)) Q (λ r. key r == k) f xs
              (λ y n t. absurd (n.1 (ground arith))) (λ y n t. miss y n.0 (ground arith))
              (All-zip P _ xs h.1 d.0),
        )
    | inr n ↦
        let later : first p xs ≡ some a = rw n at e in
        let found = All-first (λ y. key y ≢ key x) p xs d.0 later in
        let away : key x ≢ k = λ here. found.0 (only a found.1 ∙ sym here) in
        let kept : Q x = miss x h.0 away in
        (ground arith, All-change_found xs d.1 later only h.1 hit miss)
  ]

change_self {ℓ} : {A : Type ℓ} (p : A → Bool) (l : List A) → change p (λ a. a) l ≡ l
unfolding change
change_self p [] = refl
change_self p (x ∷ xs) = elim (Bool-cases (p x)) [
  | inl t ↦ rw t (ap (λ r. x ∷ r) (change_self p xs))
  | inr n ↦ rw n (ap (λ r. x ∷ r) (change_self p xs))
]

module _ {ℓ κ μ} {A : Type ℓ} (key : A → Text) (P : A → Type κ) (Q : A → Type μ) (p : A → Bool)
    (k : Text) where
  -- What holds of the row that a query has found, and of all rows with another key.
  pub All-found :
      (l : List A) {a : A}
      → Distinct key l
      → first p l ≡ some a
      → ((x : A) → p x ≡ true → key x ≡ k)
      → All P l
      → Q a
      → ((x : A) → P x → key x ≢ k → Q x)
      → All Q l
  All-found l d e only h hit miss =
      subst (All Q) (change_self (λ r. key r == k) l)
        (All-change_found key P Q p (λ a. a) k l d e only h hit miss)

module _ {ℓ} {A : Type ℓ} (p q : A → Bool) (f : A → A) where
  -- The row that a query finds after a change of that row which the query does not look at.
  pub first-change :
      (l : List A) {a : A}
      → ((x : A) → p (f x) ≡ p x)
      → first p l ≡ some a
      → q a ≡ true
      → first p (change q f l) ≡ some (f a)
  unfolding change first
  first-change [] {a} blind e t = absurd (cc)
  first-change (x ∷ xs) {a} blind e t = elim (Bool-cases (p x)) [
    | inl here ↦
        let same : x ≡ a = some-injective x a (rw here at e) in
        rw (ap q same ∙ t, blind x, here, same) refl
    | inr away ↦
        let later = first-change xs blind (rw away at e) t in
        elim (Bool-cases (q x)) [
          | inl hit ↦ rw (hit, blind x, away) later
          | inr miss ↦ rw (miss, away) later
        ]
  ]
