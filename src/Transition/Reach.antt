-- ===== src/Transition/Reach.antt =====
-- Histories of a status that a guard has let through, for any matrix.
use sanmarino_crm.Base.{
  ℕ, ◌<◌, ◌≡◌, refl, ◌↔◌, ◌⊎◌, inl, inr, true, none, List, arith, Eq, contains, String,
}
use sanmarino_crm.Transition.{assert_transition}

module _ {Status : Type 0} ⦃e : Eq Status⦄ (allowed_transitions : Status → List Status) where
  -- A guard passes a change to the same status and those of the matrix, and throws on all others.
  pub assert_transition_iff :
      (entity_name : String) (from to : Status)
      → ((from ≡ to) ⊎ (contains (allowed_transitions from) to ≡ true))
        ↔ (assert_transition allowed_transitions entity_name from to ≡ none)
  unfolding assert_transition
  assert_transition_iff n from to = (λ h. ground arith, λ h. ground arith)

  -- A sequence of updates, each of which its guard has passed.
  pub data Reach (from : Status) : Status → Type 0 where
    here : Reach from from
    next :
        {mid to : Status}
        → Reach from mid
        → (entity_name : String) → assert_transition allowed_transitions entity_name mid to ≡ none
        → Reach from to

  pub Reach-trans : {a b c : Status} → Reach a b → Reach b c → Reach a c
  Reach-trans r here = r
  Reach-trans r (next s n h) = next (Reach-trans r s) n h

  module _ (rank : Status → ℕ)
      (climbs : (a b : Status) → contains (allowed_transitions a) b ≡ true → rank a < rank b) where
    pub step-rank :
        (n : String) (a b : Status)
        → assert_transition allowed_transitions n a b ≡ none
        → (a ≡ b) ⊎ (rank a < rank b)
    step-rank n a b h = elim ((assert_transition_iff n a b).1 h) [
      | inl same ↦ inl same
      | inr listed ↦ inr (climbs a b listed)
    ]

    pub Reach-rank : {a b : Status} → Reach a b → (a ≡ b) ⊎ (rank a < rank b)
    Reach-rank here = inl refl
    Reach-rank {a} (next {mid = m} {to = b} r n h) = ground (arith, Reach-rank r, step-rank n m b h)

    -- A status that has been left is never reached again.
    pub Reach-antisymm : (a b : Status) → Reach a b → Reach b a → a ≡ b
    Reach-antisymm a b r s = ground (arith, Reach-rank r, Reach-rank s)
