-- ===== src/Payments/Reject.antt =====
-- `rejectExternalPaymentFact` of payments.service.ts.
use sanmarino_crm.Base.{ℕ, not, Option, some, [], ◌∷◌, Text, text, ◌==◌}
use sanmarino_crm.Records.{
  Payment, Actor, external_fact_rejected, reject, reject_payload, payment_reference,
}
use sanmarino_crm.Errors.{not_found_exception, conflict_exception, transition_not_allowed}
use sanmarino_crm.Action.{Action, ◌>>=◌, ◌>>◌, pure, gets, or_throw, throw_if, modify}
use sanmarino_crm.Database.{Database, Db}
use sanmarino_crm.Payments.Confirm.{find_payment, update_payment}
use sanmarino_crm.Payments.Digest.{HashInput, reject_request}
use sanmarino_crm.Payments.Idempotency.{CommandContext, Surroundings}
use sanmarino_crm.Payments.Normalize.{normalize_optional_text}
use sanmarino_crm.Payments.Writes.{
  create_outbox_records, create_audit_log_record, complete_record, run_command,
}
use sanmarino_crm.Status.{PaymentStatus, payment_status_eq}

abbrev pub reject_scope : Text
reject_scope = text "payments.external_fact.reject.v1"

abbrev pub rejected_payment : ℕ → Payment → Payment
rejected_payment at p = record p { status = PaymentStatus.rejected; rejected_at = some at }

module _ (D : Database) (digest : HashInput → Text) where
  -- The transaction.
  unfoldable pub reject_transaction :
      Text → Option Text → Actor → CommandContext → ℕ → Text → Action (Db D) Text
  reject_transaction payment_id reason actor context now record_id = do
    found ← gets (find_payment D payment_id)
    payment ← or_throw found not_found_exception
    throw_if (not (payment.status == PaymentStatus.pending))
        (conflict_exception transition_not_allowed)
    modify (update_payment D payment.id (rejected_payment now))
    create_outbox_records D (external_fact_rejected payment.id payment.order_id reason now ∷ [])
    create_audit_log_record D digest reject now payment.id actor context
        (reject_payload payment.order_id reason)
    complete_record D record_id (payment_reference payment.id)
    pure payment.id

  unfoldable pub reject_external_payment_fact :
      Text → Option Text → Actor → CommandContext → Surroundings D → Action (Db D) Payment
  unfolding run_command reject_transaction normalize_optional_text
  reject_external_payment_fact payment_id reason actor context around =
      let normalized = normalize_optional_text reason in
      run_command D around reject_scope context.idempotency_key
        (digest (reject_request payment_id normalized)) actor (some payment_id)
        (reject_transaction payment_id normalized actor context around.performed_at)
