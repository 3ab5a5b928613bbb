-- ===== src/Tests/Guards.antt =====
-- The guards, the errors and the transactions at concrete inputs.
use sanmarino_crm.Base.{
  if◌then◌else◌, ℕ, ◌≡◌, ◌⊎◌, ◌↔◌, refl, true, none, [], ◌∷◌, text, text_eq, contains,
}
use sanmarino_crm.Action.Ensures.{Ensures}
use sanmarino_crm.Database.{memory_database}
use sanmarino_crm.Errors.{
  Exception, conflict_exception, conflict, fulfillment_progress_incomplete, is_api_error_code,
  response_code,
}
use sanmarino_crm.Errors.Laws.{response_code_conflict}
use sanmarino_crm.Payments.Calls.{after}
use sanmarino_crm.Payments.Confirm.{confirm_transaction}
use sanmarino_crm.Payments.Ledger.Transactions.Confirm.{Confirmed, confirm_transaction-Confirmed}
use sanmarino_crm.Status.{PaymentStatus, payment_status_eq}
use sanmarino_crm.Transition.{assert_transition}
use sanmarino_crm.Transition.Matrices.{payment_status_transition_matrix}
use sanmarino_crm.Transition.Reach.{Reach, here, next, assert_transition_iff}
use sanmarino_crm.Transition.Lifecycles.{refunded_needs_completed}
use sanmarino_crm.Tests.Payments.{digest, start, clerk, context, first_payment, intake_call}

assert_transition_iff_example :
    ((PaymentStatus.pending ≡ PaymentStatus.refunded)
      ⊎ (contains (payment_status_transition_matrix PaymentStatus.pending) PaymentStatus.refunded
          ≡ true))
    ↔ (assert_transition payment_status_transition_matrix "payments.payment" PaymentStatus.pending
          PaymentStatus.refunded
        ≡ none)
assert_transition_iff_example =
    assert_transition_iff payment_status_transition_matrix "payments.payment" PaymentStatus.pending
      PaymentStatus.refunded

paid_back : Reach payment_status_transition_matrix PaymentStatus.pending PaymentStatus.refunded
unfolding assert_transition payment_status_eq
paid_back =
    next {mid = PaymentStatus.completed} (next here "payments.payment" refl) "payments.payment" refl

refunded_needs_completed_example :
    (PaymentStatus.pending ≡ PaymentStatus.refunded)
    ⊎ Reach payment_status_transition_matrix PaymentStatus.pending PaymentStatus.completed
refunded_needs_completed_example =
    refunded_needs_completed PaymentStatus.pending PaymentStatus.refunded paid_back refl

abbrev status_409 : Exception → ℕ
status_409 _ = 409

response_code_conflict_example :
    response_code status_409 (conflict_exception fulfillment_progress_incomplete) ≡ (
      if is_api_error_code fulfillment_progress_incomplete
      then fulfillment_progress_incomplete
      else conflict)
response_code_conflict_example =
    response_code_conflict status_409 fulfillment_progress_incomplete refl

confirm_transaction-Confirmed_example :
    Ensures
      (after memory_database digest (intake_call ∷ []) start)
      (confirm_transaction memory_database digest first_payment clerk
        (context (text "k9"))
        7_000
        (text "i1"))
      (Confirmed memory_database digest first_payment clerk
        (context (text "k9"))
        7_000
        (text "i1")
        (after memory_database digest (intake_call ∷ []) start))
confirm_transaction-Confirmed_example =
    confirm_transaction-Confirmed memory_database digest first_payment clerk (context (text "k9"))
      7_000 (text "i1") (after memory_database digest (intake_call ∷ []) start)
