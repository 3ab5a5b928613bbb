-- ===== src/Base/Members.antt =====
-- Elements of a list of rows, and where a change takes them.
use mathlib.Core.Path.{◌≡◌, refl, sym, subst, ap, ◌∙◌}
use mathlib.Core.Bool.{Bool, true, false}
use mathlib.Core.Option.{some, some-injective}
use mathlib.Core.List.{List, [], ◌∷◌}
use mathlib.Core.Logic.{inl, inr, ◌≢◌}
use sanmarino_crm.Base.Equality.{Text, Bool-cases}
use sanmarino_crm.Base.Lists.{All, All-first, Distinct, first, change, select}

module _ {ℓ} {A : Type ℓ} where
  -- `a` is an element of the list.
  pub data Mem (a : A) : List A → Type ℓ where
    here : {xs : List A} → Mem a (a ∷ xs)
    there : {x : A} {xs : List A} → Mem a xs → Mem a (x ∷ xs)

module _ {ℓ κ} {A : Type ℓ} (P : A → Type κ) where
  pub All-Mem : (l : List A) {a : A} → All P l → Mem a l → P a
  All-Mem [] h m = elim m [ ]
  All-Mem (x ∷ xs) h here = h.0
  All-Mem (x ∷ xs) h (there m) = All-Mem xs h.1 m

  pub All-of_Mem : (l : List A) → ((a : A) → Mem a l → P a) → All P l
  All-of_Mem [] h = tt
  All-of_Mem (x ∷ xs) h = (h x here, All-of_Mem xs (λ a m. h a (there m)))

module _ {ℓ} {A : Type ℓ} (p : A → Bool) where
  pub first-Mem : (l : List A) {a : A} → first p l ≡ some a → Mem a l
  unfolding first
  first-Mem [] e = absurd (cc)
  first-Mem (x ∷ xs) {a} e = elim (Bool-cases (p x)) [
    | inl t ↦ subst (λ y. Mem a (y ∷ xs)) (sym (some-injective x a (rw t at e))) here
    | inr n ↦ there (first-Mem xs (rw n at e))
  ]

  pub Mem-select : (l : List A) {a : A} → Mem a (select p l) → Mem a l × (p a ≡ true)
  unfolding select
  Mem-select [] m = elim m [ ]
  Mem-select (x ∷ xs) {a} m = elim (Bool-cases (p x)) [
    | inl t ↦ selected_head x xs t (Mem-select xs) (rw t at m)
    | inr n ↦ let (later, t) = Mem-select xs (rw n at m) in (there later, t)
  ]
    where
      selected_head :
          (x : A) (xs : List A)
          → p x ≡ true
          → (Mem a (select p xs) → Mem a xs × (p a ≡ true))
          → Mem a (x ∷ select p xs)
          → Mem a (x ∷ xs) × (p a ≡ true)
      selected_head x xs t rest here = (here, t)
      selected_head x xs t rest (there m) = let (later, u) = rest m in (there later, u)

module _ {ℓ} {A : Type ℓ} (p : A → Bool) (f : A → A) where
  pub Mem-change_hit : (l : List A) {a : A} → Mem a l → p a ≡ true → Mem (f a) (change p f l)
  unfolding change
  Mem-change_hit [] m t = elim m [ ]
  Mem-change_hit (x ∷ xs) here t = rw t here
  Mem-change_hit (x ∷ xs) (there m) t = there (Mem-change_hit xs m t)

  pub Mem-change_miss : (l : List A) {a : A} → Mem a l → p a ≡ false → Mem a (change p f l)
  unfolding change
  Mem-change_miss [] m t = elim m [ ]
  Mem-change_miss (x ∷ xs) here t = rw t here
  Mem-change_miss (x ∷ xs) (there m) t = there (Mem-change_miss xs m t)

module _ {ℓ} {A : Type ℓ} (key : A → Text) (p q : A → Bool) where
  -- Two queries that both find rows of one key find the same row.
  pub first_unique :
      (l : List A) {a : A}
      → Distinct key l
      → first p l ≡ some a
      → q a ≡ true
      → ((x : A) → q x ≡ true → key x ≡ key a)
      → first q l ≡ some a
  unfolding first
  first_unique [] d e h only = absurd (cc)
  first_unique (x ∷ xs) {a} d e h only = elim (Bool-cases (p x)) [
    | inl t ↦ let same : x ≡ a = some-injective x a (rw t at e) in rw (ap q same ∙ h, same) refl
    | inr n ↦
        let later : first p xs ≡ some a = rw n at e in
        let away = All-first (λ y. key y ≢ key x) p xs d.0 later in
        elim (Bool-cases (q x)) [
          | inl t ↦ absurd (away.0 (sym (only x t)))
          | inr m ↦ rw m (first_unique xs d.1 later h only)
        ]
  ]

module _ {ℓ κ} {A : Type ℓ} (P : A → Type κ) (p : A → Bool) where
  -- What holds of all that are selected holds of each that passes the test.
  pub All-select : (l : List A) → All P (select p l) → All (λ a. p a ≡ true → P a) l
  unfolding select
  All-select [] h = tt
  All-select (x ∷ xs) h = elim (Bool-cases (p x)) [
    | inl t ↦ let h = rw t at h in (λ _. h.0, All-select xs h.1)
    | inr n ↦ let h = rw n at h in (λ t. absurd (cc (t, n)), All-select xs h)
  ]
