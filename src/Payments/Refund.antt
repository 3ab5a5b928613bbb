-- ===== src/Payments/Refund.antt =====
-- `refundPayment` of payments.service.ts. The comparisons of amounts with a tolerance of 0.005 are
-- made in tenths of a hundredth, where it is 5.
use sanmarino_crm.Base.{
  ℕ, ◌+◌, ◌*◌, Bool, false, ◌&&◌, not, Option, none, some, [], ◌∷◌, ◌++◌, Text, text, text_eq, ◌==◌,
  leb, ltb, if◌then◌else◌,
}
use sanmarino_crm.Records.{
  Payment, ReturnRequest, CashOperation, FinanceEntry, Actor, refund_completed, refund,
  refund_payload, refund_reference,
}
use sanmarino_crm.Errors.{
  not_found_exception, conflict_exception, transition_not_allowed, source_of_truth_violation,
  payment_refund_requires_return_request,
}
use sanmarino_crm.Action.{from_result, Action, ◌>>=◌, ◌>>◌, pure, gets, or_throw, throw_if, modify}
use sanmarino_crm.Database.{Database, Db}
use sanmarino_crm.Payments.Confirm.{find_payment, update_payment}
use sanmarino_crm.Payments.Digest.{HashInput, refund_request}
use sanmarino_crm.Payments.Idempotency.{CommandContext, Surroundings}
use sanmarino_crm.Payments.Normalize.{
  normalize_amount, normalize_optional_text, normalize_required_return_request_id,
}
use sanmarino_crm.Payments.Writes.{
  create_cash_operation, create_finance_entry, create_outbox_records, create_audit_log_record,
  complete_record, run_command,
}
use sanmarino_crm.Status.{
  PaymentStatus, payment_status_eq, ReturnRequestStatus, return_request_status_eq,
  CashOperationType, cash_operation_type_eq, FinanceEntryType,
}

-- A foreign key column is compared with an identifier; NULL equals none.
abbrev pub is_link : Text → Option Text → Bool
is_link id none = false
is_link id (some key) = key == id

-- `RefundPaymentInput`
pub record RefundInput : Type 0 where
  pub amount : Text
  pub return_request_id : Option Text
  pub reason : Option Text

-- The payload after its checks.
pub record RefundOrder : Type 0 where
  pub amount : ℕ
  pub return_request_id : Text
  pub reason : Option Text

abbrev pub refund_scope : Text
refund_scope = text "payments.payment.refund.v1"

-- `a - b > 0.005`
abbrev pub exceeds : ℕ → ℕ → Bool
exceeds a b = ltb (10 * b + 5) (10 * a)

-- `a - b <= 0.005`
abbrev pub within : ℕ → ℕ → Bool
within a b = leb (10 * a) (10 * b + 5)

abbrev pub refunded_payment : ℕ → ℕ → Payment → Payment
refunded_payment payment_amount next_refunded_amount p = record p {
  refunded_amount = next_refunded_amount;
  status =
      if within payment_amount next_refunded_amount
      then PaymentStatus.refunded
      else PaymentStatus.completed;
}

-- `where: { returnRequestId, operationType: "REFUND" }`
abbrev pub is_refund_of_return : Text → CashOperation → Bool
is_refund_of_return return_request_id o =
    is_link return_request_id o.return_request_id && o.operation_type == CashOperationType.refund

abbrev pub refund_operation : Text → Payment → Text → ℕ → Text → ℕ → CashOperation
refund_operation id p return_request_id amount user_id at = record {
  id = id;
  payment_id = some p.id;
  return_request_id = some return_request_id;
  operation_type = CashOperationType.refund;
  amount = amount;
  performed_at = at;
  external_reference = p.external_reference;
  created_by = user_id;
}

abbrev refund_description : Option Text → Text
refund_description none = text "Refund adjustment linked to ReturnRequest"
refund_description (some reason) = text "Refund adjustment linked to ReturnRequest: " ++ reason

abbrev pub adjustment_entry : Text → Payment → Text → Text → RefundOrder → Text → ℕ → FinanceEntry
adjustment_entry id p return_request_id cash_operation_id r user_id at = record {
  id = id;
  entry_type = FinanceEntryType.adjustment;
  order_id = some p.order_id;
  payment_id = some p.id;
  cash_operation_id = some cash_operation_id;
  return_request_id = some return_request_id;
  amount = r.amount;
  recognized_at = at;
  description = refund_description r.reason;
  created_by = user_id;
}

-- The cap of a return request that names an amount.
abbrev pub exceeds_requested : Option ℕ → ℕ → Bool
exceeds_requested none refunded = false
exceeds_requested (some requested) refunded = exceeds refunded requested

module _ (D : Database) where
  -- `where: { id, orderId: payment.orderId, isDeleted: false }`
  abbrev pub find_return_request : Text → Text → Db D → Option ReturnRequest
  find_return_request return_request_id order_id db =
      D.return_requests.find_first
        (λ r. r.id == return_request_id && r.order_id == order_id && not r.is_deleted)
        db.return_requests

  abbrev pub refunded_for_return : Text → Db D → ℕ
  refunded_for_return return_request_id db =
      D.cash_operations.sum (is_refund_of_return return_request_id) (λ o. o.amount)
        db.cash_operations

  module _ (digest : HashInput → Text) where
    -- The transaction.
    unfoldable pub refund_transaction :
        Text → RefundOrder → Actor → CommandContext → ℕ → Text → Action (Db D) Text
    refund_transaction payment_id order actor context now record_id = do
      found ← gets (find_payment D payment_id)
      payment ← or_throw found not_found_exception
      throw_if (not (payment.status == PaymentStatus.completed))
          (conflict_exception transition_not_allowed)
      linked ← gets (find_return_request order.return_request_id payment.order_id)
      return_request ← or_throw linked (conflict_exception payment_refund_requires_return_request)
      throw_if (not (return_request.status == ReturnRequestStatus.processed))
          (conflict_exception transition_not_allowed)
      let next_refunded_amount = payment.refunded_amount + order.amount
      throw_if (exceeds next_refunded_amount payment.amount)
          (conflict_exception source_of_truth_violation)
      already ← gets (refunded_for_return return_request.id)
      throw_if (exceeds_requested return_request.requested_refund_amount (already + order.amount))
          (conflict_exception source_of_truth_violation)
      modify (update_payment D payment.id (refunded_payment payment.amount next_refunded_amount))
      cash_id ← gets (λ (db : Db D). D.cash_operations.next_id db.cash_operations)
      create_cash_operation D
          (refund_operation cash_id payment return_request.id order.amount actor.user_id now)
      entry_id ← gets (λ (db : Db D). D.finance_entries.next_id db.finance_entries)
      create_finance_entry D
          (adjustment_entry entry_id payment return_request.id cash_id order actor.user_id now)
      create_outbox_records D (
          refund_completed payment.id return_request.id payment.order_id order.amount cash_id
            entry_id now
          ∷ [])
      create_audit_log_record D digest refund now payment.id actor context
          (refund_payload payment.order_id return_request.id order.amount cash_id entry_id)
      complete_record D record_id (refund_reference payment.id return_request.id)
      pure payment.id

    unfoldable pub check_refund : RefundInput → Action (Db D) RefundOrder
    check_refund payload = do
      amount ← from_result (normalize_amount payload.amount)
      return_request_id ←
          from_result (normalize_required_return_request_id payload.return_request_id)
      pure (record {
        amount = amount;
        return_request_id = return_request_id;
        reason = normalize_optional_text payload.reason;
      })

    unfoldable pub refund_payment :
        Text → RefundInput → Actor → CommandContext → Surroundings D → Action (Db D) Payment
    unfolding run_command check_refund refund_transaction
    refund_payment payment_id payload actor context around = do
      order ← check_refund payload
      run_command D around refund_scope context.idempotency_key
          (digest (refund_request payment_id order.return_request_id order.amount order.reason))
          actor (some payment_id)
          (refund_transaction payment_id order actor context around.performed_at)
