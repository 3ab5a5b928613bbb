-- ===== src/Payments/Totality/Refund.antt =====
-- `refundPayment`: when its transaction returns.
use sanmarino_crm.Base.{
  first-test, ℕ, ◌+◌, ◌≤◌, ◌≡◌, ◌↔◌, sym, refl, ap, ◌∙◌, false, some, Text, text_eq, first, arith,
}
use mathlib.Core.Path.{subst}
use sanmarino_crm.Action.{ok}
use sanmarino_crm.Action.Succeeds.{
  Succeeds, Succeeds-pure, Succeeds-bind, Succeeds-gets, Succeeds-or_throw, Succeeds-throw_if,
  Succeeds-modify,
}
use sanmarino_crm.Action.Ensures.{Ensures-elim}
use sanmarino_crm.Database.{Database, Db}
use sanmarino_crm.Records.{Payment, ReturnRequest, Actor, refund}
use sanmarino_crm.Payments.Digest.{HashInput, build_payment_audit_event_id}
use sanmarino_crm.Payments.Idempotency.{CommandContext}
use sanmarino_crm.Payments.Refund.{RefundOrder, refund_transaction, exceeds_requested}
use sanmarino_crm.Payments.Ledger.{sheet, returned}
use sanmarino_crm.Payments.Ledger.Updates.{is_payment, is_payment-id}
use sanmarino_crm.Payments.Ledger.Transactions.Refund.{is_return_of, refund_transaction-Refunded}
use sanmarino_crm.Payments.Totality.{
  IsUnused, create_cash_operation-Succeeds, create_finance_entry-Succeeds,
  create_outbox_records-Succeeds, create_audit_log_record-Succeeds, complete_record-Succeeds,
}
use sanmarino_crm.Status.{
  PaymentStatus, payment_status_eq, ReturnRequestStatus, return_request_status_eq,
}

module _ (D : Database) (digest : HashInput → Text) (payment_id : Text) (order : RefundOrder)
    (actor : Actor) (context : CommandContext) (now : ℕ) (record_id : Text) (db : Db D) where
  -- What a refund asks of the database.
  pub record Refundable : Type 0 where
    pub payment : Payment
    pub return_request : ReturnRequest
    pub found : first (is_payment payment_id) (sheet D db).payments ≡ some payment
    pub completed : payment.status ≡ PaymentStatus.completed
    pub linked :
        first (is_return_of order.return_request_id payment.order_id) (sheet D db).returns
        ≡ some return_request
    pub processed : return_request.status ≡ ReturnRequestStatus.processed
    pub covered : payment.refunded_amount + order.amount ≤ payment.amount
    pub fits :
        exceeds_requested return_request.requested_refund_amount
          (returned return_request.id (sheet D db).ops + order.amount)
        ≡ false

  Refundable-Succeeds :
      (r : Refundable)
      → IsUnused
          (build_payment_audit_event_id digest refund r.payment.id context.idempotency_key)
          (D.audit_log.rows db.audit_log)
      → Succeeds db
          (refund_transaction D digest payment_id order actor context now record_id)
          (λ id _. id ≡ r.payment.id)
  unfolding refund_transaction
  Refundable-Succeeds r unused = Succeeds-gets _ _ (
      Succeeds-or_throw _ _ (D.payments.find_first_lem _ _ ∙ r.found) (
        Succeeds-throw_if _ _ (ground (arith, r.completed)) (
          Succeeds-gets _ _ (
            Succeeds-or_throw _ _ (D.return_requests.find_first_lem _ _ ∙ r.linked) (
              Succeeds-throw_if _ _ (ground (arith, r.processed)) (
                Succeeds-throw_if _ _ (ground (arith, r.covered)) (
                  Succeeds-gets _ _ (
                    Succeeds-throw_if _ _
                      (ap
                          (λ n.
                            exceeds_requested r.return_request.requested_refund_amount
                              (n + order.amount))
                          (D.cash_operations.sum_lem _ _ _)
                        ∙ r.fits)
                      (Succeeds-modify _ _ (
                        Succeeds-gets _ _ (
                          Succeeds-bind (create_cash_operation-Succeeds D _ _) λ _ d1 h1.
                            Succeeds-gets _ _ (
                              Succeeds-bind (create_finance_entry-Succeeds D d1 _) λ _ d2 h2.
                                Succeeds-bind (create_outbox_records-Succeeds D _ d2) λ _ d3 h3.
                                  Succeeds-bind
                                    (create_audit_log_record-Succeeds D d3 digest refund now _ actor
                                      context _
                                      (subst
                                        (λ s.
                                          IsUnused
                                            (build_payment_audit_event_id digest refund r.payment.id
                                              context.idempotency_key)
                                            (D.audit_log.rows s))
                                        (sym (h3 ∙ (h2 ∙ h1))) unused))
                                    λ _ d4 h4.
                                      Succeeds-bind (complete_record-Succeeds D d4 _ _)
                                        λ _ d5 h5. Succeeds-pure _ refl))))))))))))

  -- The transaction of a refund returns just when the payment is completed, its return request is
  -- processed and belongs to the same order, and the refund stays within the payment and within what
  -- the return request asks for; the identifier of its audit record is not in use.
  pub refund_transaction_returns :
      IsUnused
        (build_payment_audit_event_id digest refund payment_id context.idempotency_key)
        (D.audit_log.rows db.audit_log)
      → ((id : Text) × (t : Db D) × (refund_transaction D digest payment_id order actor context now
              record_id db
            ≡ (ok id, t)))
        ↔ Refundable
  refund_transaction_returns unused = (
    λ (id, t, e).
        let c =
          Ensures-elim
            (refund_transaction-Refunded D digest payment_id order actor context now record_id db)
            e in
        record {
          payment = c.payment;
          return_request = c.return_request;
          found = c.found;
          completed = c.completed;
          linked = c.linked;
          processed = c.processed;
          covered = c.covered;
          fits = c.fits;
        },
    λ r.
        let own : r.payment.id ≡ payment_id =
          is_payment-id payment_id r.payment (first-test (is_payment payment_id) _ r.found) in
        let h = Refundable-Succeeds r (
          subst
            (λ id.
              IsUnused (build_payment_audit_event_id digest refund id context.idempotency_key)
                (D.audit_log.rows db.audit_log))
            (sym own) unused) in
        (h.value, h.after, h.run),
  )
