-- ===== src/Payments/Confirm.antt =====
-- `confirmExternalPaymentFact` of payments.service.ts, which `completePayment` only calls.
use sanmarino_crm.Base.{ℕ, ◌&&◌, not, Option, none, some, List, [], ◌∷◌, Text, text, text_eq, ◌==◌}
use sanmarino_crm.Records.{
  Payment, CashOperation, FinanceEntry, Actor, RoleCode, external_fact_confirmed, payment_completed,
  revenue_recognized, confirm, confirm_payload, payment_reference,
}
use sanmarino_crm.Errors.{not_found_exception, conflict_exception, transition_not_allowed}
use sanmarino_crm.Action.{Action, ◌>>=◌, ◌>>◌, pure, gets, or_throw, throw_if, modify}
use sanmarino_crm.Database.{Database, Db}
use sanmarino_crm.Payments.Digest.{HashInput, confirm_request}
use sanmarino_crm.Payments.Idempotency.{CommandContext, Surroundings}
use sanmarino_crm.Payments.Overlay.{apply_money_control_overlay}
use sanmarino_crm.Payments.Writes.{
  create_cash_operation, create_finance_entry, create_outbox_records, create_audit_log_record,
  complete_record, run_command,
}
use sanmarino_crm.Status.{PaymentStatus, payment_status_eq, CashOperationType, FinanceEntryType}

abbrev pub confirm_scope : Text
confirm_scope = text "payments.external_fact.confirm.v1"

-- `payment.receivedAt ?? new Date()`
abbrev pub received_or : ℕ → Option ℕ → ℕ
received_or now none = now
received_or now (some at) = at

-- `actor.roleCodes[0] ?? null`
abbrev first_role : List RoleCode → Option RoleCode
first_role [] = none
first_role (r ∷ _) = some r

abbrev pub completed_payment : Text → ℕ → Payment → Payment
completed_payment user_id at p = record p {
  status = PaymentStatus.completed;
  received_at = some at;
  confirmed_at = some at;
  confirmed_by = some user_id;
}

abbrev pub cash_in_operation : Text → Payment → Text → ℕ → CashOperation
cash_in_operation id p user_id at = record {
  id = id;
  payment_id = some p.id;
  return_request_id = none;
  operation_type = CashOperationType.cash_in;
  amount = p.amount;
  performed_at = at;
  external_reference = p.external_reference;
  created_by = user_id;
}

abbrev pub income_entry : Text → Payment → Text → Text → ℕ → FinanceEntry
income_entry id p cash_operation_id user_id at = record {
  id = id;
  entry_type = FinanceEntryType.income;
  order_id = some p.order_id;
  payment_id = some p.id;
  cash_operation_id = some cash_operation_id;
  return_request_id = none;
  amount = p.amount;
  recognized_at = at;
  description = text "Income recognized from payment.completed cash-basis event";
  created_by = user_id;
}

module _ (D : Database) where
  abbrev pub find_payment : Text → Db D → Option Payment
  find_payment payment_id db =
      D.payments.find_first (λ p. p.id == payment_id && not p.is_deleted) db.payments

  abbrev pub update_payment : Text → (Payment → Payment) → Db D → Db D
  update_payment payment_id f db = record db {
    payments = D.payments.update payment_id f db.payments;
  }

  module _ (digest : HashInput → Text) where
    -- The transaction.
    unfoldable pub confirm_transaction :
        Text → Actor → CommandContext → ℕ → Text → Action (Db D) Text
    confirm_transaction payment_id actor context now record_id = do
      found ← gets (find_payment payment_id)
      payment ← or_throw found not_found_exception
      throw_if (not (payment.status == PaymentStatus.pending))
          (conflict_exception transition_not_allowed)
      let at = received_or now payment.received_at
      modify (update_payment payment.id (completed_payment actor.user_id at))
      cash_id ← gets (λ (db : Db D). D.cash_operations.next_id db.cash_operations)
      create_cash_operation D (cash_in_operation cash_id payment actor.user_id at)
      entry_id ← gets (λ (db : Db D). D.finance_entries.next_id db.finance_entries)
      create_finance_entry D (income_entry entry_id payment cash_id actor.user_id at)
      apply_money_control_overlay D payment.order_id now
      create_outbox_records D (
          external_fact_confirmed payment.id payment.order_id payment.amount at
            (first_role actor.role_codes)
          ∷ payment_completed payment.id payment.order_id payment.amount at payment.payment_method
          ∷ revenue_recognized entry_id payment.id payment.order_id payment.amount at
          ∷ [])
      create_audit_log_record D digest confirm at payment.id actor context
          (confirm_payload payment.order_id payment.amount cash_id entry_id)
      complete_record D record_id (payment_reference payment.id)
      pure payment.id

    unfoldable pub confirm_external_payment_fact :
        Text → Actor → CommandContext → Surroundings D → Action (Db D) Payment
    unfolding run_command confirm_transaction
    confirm_external_payment_fact payment_id actor context around =
        run_command D around confirm_scope context.idempotency_key
          (digest (confirm_request payment_id)) actor (some payment_id)
          (confirm_transaction payment_id actor context around.performed_at)

    -- `completePayment`
    unfoldable pub complete_payment :
        Text → Actor → CommandContext → Surroundings D → Action (Db D) Payment
    unfolding confirm_external_payment_fact
    complete_payment = confirm_external_payment_fact
