-- ===== src/Action/Succeeds.antt =====
-- That an action returns, one rule for each way to build an action.
use sanmarino_crm.Base.{◌≡◌, ◌∙◌, refl, Bool, false, Option, some}
use sanmarino_crm.Errors.{Exception}
use sanmarino_crm.Action.{
  ok, Action, pure, gets, or_throw, throw_if, modify, transaction, ◌>>=◌, ◌>>◌,
}
use sanmarino_crm.Action.Ensures.{bind-ok}

-- Run in `s`, the action returns a value and a state with `Q`.
pub record Succeeds {S A : Type 0} (s : S) (m : Action S A) (Q : A → S → Type 0) : Type 0 where
  pub value : A
  pub after : S
  pub run : m s ≡ (ok value, after)
  pub holds : Q value after

module _ {S A : Type 0} {s : S} {Q : A → S → Type 0} where
  pub Succeeds-pure : (a : A) → Q a s → Succeeds s (pure a) Q
  unfolding pure
  Succeeds-pure a h = record { value = a; after = s; run = refl; holds = h }

module _ {S A B : Type 0} {s : S} {Q : B → S → Type 0} where
  pub Succeeds-bind :
      {m : Action S A} {f : A → Action S B} {R : A → S → Type 0}
      → Succeeds s m R
      → ((a : A) (t : S) → R a t → Succeeds t (f a) Q)
      → Succeeds s (m >>= f) Q
  Succeeds-bind {m} {f} h k =
      let next = k h.value h.after h.holds in
      record {
        value = next.value;
        after = next.after;
        run = bind-ok m f h.run ∙ next.run;
        holds = next.holds;
      }

  pub Succeeds-gets :
      (g : S → A) (f : A → Action S B) → Succeeds s (f (g s)) Q → Succeeds s (gets g >>= f) Q
  unfolding ◌>>=◌
  Succeeds-gets g f h = record { value = h.value; after = h.after; run = h.run; holds = h.holds }

  pub Succeeds-or_throw :
      {o : Option A} (e : Exception) (f : A → Action S B) {a : A}
      → o ≡ some a
      → Succeeds s (f a) Q
      → Succeeds s (or_throw o e >>= f) Q
  unfolding ◌>>=◌
  Succeeds-or_throw {o} e f {a} found h = record {
    value = h.value;
    after = h.after;
    run = rw found h.run;
    holds = h.holds;
  }

module _ {S B : Type 0} {s : S} {Q : B → S → Type 0} where
  pub Succeeds-throw_if :
      {b : Bool} (e : Exception) (k : Action S B)
      → b ≡ false
      → Succeeds s k Q
      → Succeeds s (throw_if b e >> k) Q
  unfolding ◌>>=◌
  Succeeds-throw_if {b} e k no_throw h = record {
    value = h.value;
    after = h.after;
    run = rw no_throw h.run;
    holds = h.holds;
  }

  pub Succeeds-modify :
      (g : S → S) (k : Action S B) → Succeeds (g s) k Q → Succeeds s (modify g >> k) Q
  unfolding ◌>>=◌
  Succeeds-modify g k h = record { value = h.value; after = h.after; run = h.run; holds = h.holds }

module _ {S A : Type 0} {s : S} {Q : A → S → Type 0} where
  pub Succeeds-transaction : (m : Action S A) → Succeeds s m Q → Succeeds s (transaction m) Q
  unfolding transaction
  Succeeds-transaction m h = record {
    value = h.value;
    after = h.after;
    run = cc h.run;
    holds = h.holds;
  }

module _ {S A B : Type 0} {s : S} {Q : B → S → Type 0} where
  -- The second action starts where the first has returned.
  pub Succeeds-run :
      (m : Action S A) (f : A → Action S B) {a : A} {t : S}
      → m s ≡ (ok a, t)
      → Succeeds t (f a) Q
      → Succeeds s (m >>= f) Q
  Succeeds-run m f e h = record {
    value = h.value;
    after = h.after;
    run = bind-ok m f e ∙ h.run;
    holds = h.holds;
  }
