-- ===== src/Action/Leaves.antt =====
-- The state that an action leaves behind, whether it returns or throws.
use mathlib.Core.Path.{subst}
use sanmarino_crm.Base.{
  ◌≡◌, refl, sym, ap, ◌∙◌, Bool, true, false, Option, none, some, if◌then◌else◌,
}
use sanmarino_crm.Errors.{Exception}
use sanmarino_crm.Action.{
  Result, ok, err, Action, from_result, transaction, ◌>>=◌, ◌>>◌, pure, gets, or_throw, throw,
  throw_if, modify,
}
use sanmarino_crm.Action.Ensures.{Returns, Ensures, bind-ok}

-- Run in `s`, the action ends in a state with `P`.
pub record Leaves {S A : Type 0} (s : S) (m : Action S A) (P : S → Type 0) : Type 0 where
  pub at : P (m s).1

module _ {S A : Type 0} {s : S} {P : S → Type 0} where
  pub Leaves-if :
      (b : Bool) {m n : Action S A} → Leaves s m P → Leaves s n P → Leaves s (if b then m else n) P
  Leaves-if true km kn = km
  Leaves-if false km kn = kn

  -- A transaction that throws is rolled back.
  pub Leaves-transaction :
      (m : Action S A) → P s → Ensures s m (λ _ t. P t) → Leaves s (transaction m) P
  unfolding transaction
  Leaves-transaction m before h = record { at = ended (m s) h.at }
    where
      ended :
          (x : Result A × S)
          → Returns (λ _ t. P t) x
          → P
              (let (r, t) = x in
                elim r as (λ _. Result A × S) [ ok a ↦ (ok a, t) | err e ↦ (err e, s) ]).1
      ended (ok a, t) h = h
      ended (err e, t) h = before

module _ {S A B : Type 0} {s : S} {P : S → Type 0} where
  -- The second action may use what the first leaves and what it ensures of its value.
  pub Leaves-bind :
      (m : Action S A) (f : A → Action S B) (R : A → S → Type 0)
      → Leaves s m P
      → Ensures s m R
      → ((a : A) (t : S) → R a t → Leaves t (f a) P)
      → Leaves s (m >>= f) P
  unfolding ◌>>=◌
  Leaves-bind m f R left h k = record { at = go (m s) left.at h.at }
    where
      go :
          (x : Result A × S)
          → P x.1
          → Returns R x
          → P
              (let (r, t) = x in
                elim r as (λ _. Result B × S) [ ok a ↦ f a t | err e ↦ (err e, t) ]).1
      go (ok a, t) p r = (k a t r).at
      go (err e, t) p r = p

  pub Leaves-from_result :
      (r : Result A) (f : A → Action S B)
      → P s
      → ((a : A) → r ≡ ok a → Leaves s (f a) P)
      → Leaves s (from_result r >>= f) P
  unfolding ◌>>=◌
  Leaves-from_result (ok a) f h k = record { at = (k a refl).at }
  Leaves-from_result (err e) f h k = record { at = h }

  -- The second action starts where the first has returned.
  pub Leaves-run :
      (m : Action S A) (f : A → Action S B) {t : S} {a : A}
      → m s ≡ (ok a, t)
      → Leaves t (f a) P
      → Leaves s (m >>= f) P
  Leaves-run m f e h = record { at = rw (bind-ok m f e) h.at }

  -- The first action only reads.
  pub Leaves-reads :
      (m : Action S A) (f : A → Action S B)
      → Leaves s m (λ t. t ≡ s)
      → P s
      → ((a : A) → m s ≡ (ok a, s) → Leaves s (f a) P)
      → Leaves s (m >>= f) P
  unfolding ◌>>=◌
  Leaves-reads m f stays h k = record { at = go (m s) refl stays.at }
    where
      go :
          (x : Result A × S)
          → m s ≡ x
          → x.1 ≡ s
          → P
              (let (r, t) = x in
                elim r as (λ _. Result B × S) [ ok a ↦ f a t | err e ↦ (err e, t) ]).1
      go (ok a, t) e same =
          subst (λ u. P (f a u).1) (sym same) (k a (e ∙ ap (λ u. (ok a, u)) same)).at
      go (err e, t) _ same = subst P (sym same) h

  pub Leaves-gets :
      (g : S → A) (f : A → Action S B) → Leaves s (f (g s)) P → Leaves s (gets g >>= f) P
  unfolding ◌>>=◌
  Leaves-gets g f h = record { at = h.at }

  pub Leaves-or_throw :
      (o : Option A) (e : Exception) (f : A → Action S B)
      → P s
      → ((a : A) → o ≡ some a → Leaves s (f a) P)
      → Leaves s (or_throw o e >>= f) P
  unfolding ◌>>=◌
  Leaves-or_throw none e f h k = record { at = h }
  Leaves-or_throw (some a) e f h k = record { at = (k a refl).at }

module _ {S B : Type 0} {s : S} {P : S → Type 0} where
  pub Leaves-throw_if :
      (b : Bool) (e : Exception) (k : Action S B)
      → (b ≡ true → P s)
      → (b ≡ false → Leaves s k P)
      → Leaves s (throw_if b e >> k) P
  unfolding ◌>>=◌
  Leaves-throw_if true e k h next = record { at = h refl }
  Leaves-throw_if false e k h next = record { at = (next refl).at }

  pub Leaves-modify : (g : S → S) (k : Action S B) → Leaves (g s) k P → Leaves s (modify g >> k) P
  unfolding ◌>>=◌
  Leaves-modify g k h = record { at = h.at }

  pub Leaves-pure : (b : B) → P s → Leaves s (pure b) P
  unfolding pure
  Leaves-pure b h = record { at = h }

module _ {S A : Type 0} {s : S} {P : S → Type 0} where
  pub Leaves-or_throw_end : (o : Option A) (e : Exception) → P s → Leaves s (or_throw o e) P
  unfolding or_throw pure throw
  Leaves-or_throw_end none e h = record { at = h }
  Leaves-or_throw_end (some a) e h = record { at = h }
