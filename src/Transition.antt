-- ===== src/Transition.antt =====
-- apps/api/src/modules/transactional/shared/transition.guard.ts: the guard that is made from a
-- matrix of allowed transitions.
pub mod Matrices
pub mod Reach
pub mod Lifecycles
use sanmarino_crm.Base.{
  Bool, true, false, Option, none, some, List, String, Eq, ◌==◌, contains, if◌then◌else◌,
}

pub record TransitionDecision : Type 0 where
  pub allowed : Bool
  pub reason : Option String

pub record StatusTransitionError (Status : Type 0) : Type 0 where
  pub entity_name : String
  pub from : Status
  pub to : Status
  pub reason : Option String

module _ {Status : Type 0} ⦃e : Eq Status⦄ (allowed_transitions : Status → List Status) where
  -- `canTransition` of the guard
  unfoldable pub can_transition : Status → Status → TransitionDecision
  can_transition from to =
      if from == to
      then record { allowed = true; reason = none }
      else if contains (allowed_transitions from) to
      then record { allowed = true; reason = none }
      else record {
        allowed = false;
        reason = some "transition is not present in the accepted transition matrix";
      }

  -- `assertTransition` of the guard: `some` is what it throws.
  unfoldable pub assert_transition :
      String → Status → Status → Option (StatusTransitionError Status)
  unfolding can_transition
  assert_transition entity_name from to =
      let decision = can_transition from to in
      if decision.allowed
      then none
      else some
          (record { entity_name = entity_name; from = from; to = to; reason = decision.reason })
