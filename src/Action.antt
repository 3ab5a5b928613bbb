-- ===== src/Action.antt =====
-- A command of the API: state passing with exceptions. What was written before an exception stays
-- written, unless a transaction of the database rolls it back.
pub mod Ensures
pub mod Leaves
pub mod Succeeds
use sanmarino_crm.Base.{◌≡◌, refl, Bool, Option, none, some, if◌then◌else◌}
use sanmarino_crm.Errors.{Exception}

pub data Result (A : Type 0) : Type 0 where
  ok : A → Result A
  err : Exception → Result A

abbrev pub Action : Type 0 → Type 0 → Type 0
Action S A = S → Result A × S

module _ {S A : Type 0} where
  unfoldable pub pure : A → Action S A
  pure a s = (ok a, s)

  unfoldable pub throw : Exception → Action S A
  throw e s = (err e, s)

  unfoldable pub gets : (S → A) → Action S A
  gets f s = (ok (f s), s)

  unfoldable pub or_throw : Option A → Exception → Action S A
  unfolding pure throw
  or_throw none e = throw e
  or_throw (some a) _ = pure a

  unfoldable pub from_result : Result A → Action S A
  from_result r s = (r, s)

module _ {S : Type 0} where
  unfoldable pub throw_if : Bool → Exception → Action S (Unit {0})
  throw_if b e s = (if b then err e else ok tt, s)

  unfoldable pub modify : (S → S) → Action S (Unit {0})
  modify f s = (ok tt, f s)

module _ {S A : Type 0} where
  -- `$transaction(async client => …)`: what an exception leaves is rolled back.
  unfoldable pub transaction : Action S A → Action S A
  transaction m s = let (r, s') = m s in elim r [ ok a ↦ (ok a, s') | err e ↦ (err e, s) ]

-- Opening this opens the actions above too.
infixl 5 ◌>>=◌ ◌>>◌
unfoldable pub ◌>>=◌ : {S A B : Type 0} → Action S A → (A → Action S B) → Action S B
unfolding pure throw gets or_throw from_result throw_if modify transaction
◌>>=◌ m f s = let (r, s') = m s in elim r [ ok a ↦ f a s' | err e ↦ (err e, s') ]

abbrev pub ◌>>◌ : {S A B : Type 0} → Action S A → Action S B → Action S B
m >> k = m >>= λ _. k
