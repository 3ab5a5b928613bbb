-- ===== src/Action/Ensures.antt =====
-- What holds after an action that returns, one rule for each way to build an action.
use mathlib.Core.Path.{subst}
use sanmarino_crm.Base.{◌≡◌, refl, Bool, true, false, Option, none, some}
use sanmarino_crm.Errors.{Exception}
use sanmarino_crm.Action.{
  Result, ok, err, Action, pure, gets, or_throw, from_result, throw_if, modify, transaction, ◌>>=◌,
  ◌>>◌,
}

abbrev pub Returns : {S A : Type 0} → (A → S → Type 0) → Result A × S → Type 0
Returns Q (ok a, s) = Q a s
Returns Q (err e, s) = Unit

-- If `m` returns when it is run in `s`, its value and its state satisfy `Q`.
pub record Ensures {S A : Type 0} (s : S) (m : Action S A) (Q : A → S → Type 0) : Type 0 where
  pub at : Returns Q (m s)

module _ {S A : Type 0} where
  -- What holds of the state in every case holds after a return.
  pub Ensures_of_state :
      (m : Action S A) (s : S) (P : S → Type 0) → P (m s).1 → Ensures s m (λ _ t. P t)
  Ensures_of_state m s P h = record { at = go (m s) h }
    where
      go : (x : Result A × S) → P x.1 → Returns (λ (_ : A) t. P t) x
      go (ok a, t) h = h
      go (err e, t) h = tt

module _ {S A : Type 0} where
  -- It is enough to look at the run that returns.
  pub Ensures_of_run :
      (m : Action S A) (s : S) (Q : A → S → Type 0)
      → ((a : A) (t : S) → m s ≡ (ok a, t) → Q a t)
      → Ensures s m Q
  Ensures_of_run m s Q h = record { at = go (m s) refl }
    where
      go : (x : Result A × S) → m s ≡ x → Returns Q x
      go (ok a, t) e = h a t e
      go (err x, t) e = tt

module _ {S A : Type 0} {s : S} {Q : A → S → Type 0} where
  pub Ensures-pure : (a : A) → Q a s → Ensures s (pure a) Q
  unfolding pure
  Ensures-pure a h = record { at = h }

  pub Ensures_mono :
      {m : Action S A} {R : A → S → Type 0}
      → Ensures s m R
      → ((a : A) (s' : S) → R a s' → Q a s')
      → Ensures s m Q
  Ensures_mono {m} {R} h k = record { at = go (m s) h.at }
    where
      go : (x : Result A × S) → Returns R x → Returns Q x
      go (ok a, s') h = k a s' h
      go (err e, s') h = tt

  pub Ensures-elim : {m : Action S A} {a : A} {s' : S} → Ensures s m Q → m s ≡ (ok a, s') → Q a s'
  Ensures-elim {m} h e = subst (Returns Q) e h.at

  pub Ensures-transaction : {m : Action S A} → Ensures s m Q → Ensures s (transaction m) Q
  unfolding transaction
  Ensures-transaction {m} h = record { at = go (m s) h.at }
    where
      go :
          (x : Result A × S)
          → Returns Q x
          → Returns Q (let (r, s') = x in elim r [ ok a ↦ (ok a, s') | err e ↦ (err e, s) ])
      go (ok a, s') h = h
      go (err e, s') h = tt

module _ {S A B : Type 0} {s : S} {Q : B → S → Type 0} where
  pub Ensures-bind :
      {m : Action S A} {f : A → Action S B} {R : A → S → Type 0}
      → Ensures s m R
      → ((a : A) (s' : S) → R a s' → Ensures s' (f a) Q)
      → Ensures s (m >>= f) Q
  unfolding ◌>>=◌
  Ensures-bind {m} {f} {R} h k = record { at = go (m s) h.at }
    where
      go :
          (x : Result A × S)
          → Returns R x
          → Returns Q (let (r, s') = x in elim r [ ok a ↦ f a s' | err e ↦ (err e, s') ])
      go (ok a, s') h = (k a s' h).at
      go (err e, s') h = tt

  pub Ensures-gets :
      (g : S → A) (f : A → Action S B) → Ensures s (f (g s)) Q → Ensures s (gets g >>= f) Q
  unfolding ◌>>=◌
  Ensures-gets g f h = record { at = h.at }

  pub Ensures-or_throw :
      (o : Option A) (e : Exception) (f : A → Action S B)
      → ((a : A) → o ≡ some a → Ensures s (f a) Q)
      → Ensures s (or_throw o e >>= f) Q
  unfolding ◌>>=◌
  Ensures-or_throw none e f h = record { at = tt }
  Ensures-or_throw (some a) e f h = record { at = (h a refl).at }

  pub Ensures-from_result :
      (r : Result A) (f : A → Action S B)
      → ((a : A) → r ≡ ok a → Ensures s (f a) Q)
      → Ensures s (from_result r >>= f) Q
  unfolding ◌>>=◌
  Ensures-from_result (ok a) f h = record { at = (h a refl).at }
  Ensures-from_result (err e) f h = record { at = tt }

module _ {S B : Type 0} {s : S} {Q : B → S → Type 0} where
  pub Ensures-throw_if :
      (b : Bool) (e : Exception) (k : Action S B)
      → (b ≡ false → Ensures s k Q)
      → Ensures s (throw_if b e >> k) Q
  unfolding ◌>>=◌
  Ensures-throw_if true e k h = record { at = tt }
  Ensures-throw_if false e k h = record { at = (h refl).at }

  pub Ensures-modify :
      (g : S → S) (k : Action S B) → Ensures (g s) k Q → Ensures s (modify g >> k) Q
  unfolding ◌>>=◌
  Ensures-modify g k h = record { at = h.at }

module _ {S A B : Type 0} where
  -- The run of a sequence whose first action has returned.
  pub bind-ok :
      (m : Action S A) (f : A → Action S B) {s t : S} {a : A}
      → m s ≡ (ok a, t)
      → (m >>= f) s ≡ f a t
  unfolding ◌>>=◌
  bind-ok m f e = cc e

  -- The run of a sequence whose first action has thrown.
  pub bind-err :
      (m : Action S A) (f : A → Action S B) {s t : S} {e : Exception}
      → m s ≡ (err e, t)
      → (m >>= f) s ≡ (err e, t)
  unfolding ◌>>=◌
  bind-err m f h = cc h

module _ {S A : Type 0} where
  pub transaction-err :
      (m : Action S A) {s : S} {e : Exception} → (m s).0 ≡ err e → transaction m s ≡ (err e, s)
  unfolding transaction
  transaction-err m h = cc h

module _ {S A : Type 0} where
  pub Ensures-and :
      {s : S} (m : Action S A) (Q R : A → S → Type 0)
      → Ensures s m Q
      → Ensures s m R
      → Ensures s m (λ a t. Q a t × R a t)
  Ensures-and {s} m Q R h k = record { at = go (m s) h.at k.at }
    where
      go : (x : Result A × S) → Returns Q x → Returns R x → Returns (λ a t. Q a t × R a t) x
      go (ok a, t) h k = (h, k)
      go (err e, t) h k = tt

  -- `or_throw` as the last action.
  pub Ensures-or_throw_end :
      {s : S} (o : Option A) (e : Exception) (Q : A → S → Type 0)
      → ((a : A) → o ≡ some a → Q a s)
      → Ensures s (or_throw o e) Q
  unfolding or_throw
  Ensures-or_throw_end none e Q h = record { at = tt }
  Ensures-or_throw_end (some a) e Q h = record { at = h a refl }

module _ {S : Type 0} where
  -- `throw_if` as the last action.
  pub Ensures-throw_if_end :
      {s : S} (b : Bool) (e : Exception) (Q : Unit {0} → S → Type 0)
      → (b ≡ false → Q tt s)
      → Ensures s (throw_if b e) Q
  unfolding throw_if
  Ensures-throw_if_end true e Q h = record { at = tt }
  Ensures-throw_if_end false e Q h = record { at = h refl }
