-- ===== src/Payments/Ledger/Transactions/Refund.antt =====
-- `refundPayment`: the transaction as one update of the books, which keeps them in balance.
use mathlib.Core.Path.{subst}
use sanmarino_crm.Base.{
  first-test, ℕ, ◌+◌, ◌≤◌, ◌≡◌, ◌∙◌, sym, refl, Bool, true, false, ◌&&◌, not, some, ◌∷◌, Text,
  text_eq, ◌==◌, change, first, arith, All-first, ==-refl, total,
}
use sanmarino_crm.Action.Ensures.{
  Ensures, Ensures_mono, Ensures-pure, Ensures-bind, Ensures-gets, Ensures-or_throw,
  Ensures-throw_if, Ensures-modify,
}
use sanmarino_crm.Database.{Database, Db}
use sanmarino_crm.Records.{Payment, ReturnRequest, Actor}
use sanmarino_crm.Payments.Digest.{HashInput}
use sanmarino_crm.Payments.Idempotency.{CommandContext}
use sanmarino_crm.Payments.Refund.{
  RefundOrder, refund_transaction, refunded_payment, refund_operation, adjustment_entry,
  exceeds_requested,
}
use sanmarino_crm.Payments.Ledger.{sheet, Balanced, IsSettled, returned}
use sanmarino_crm.Payments.Ledger.Steps.{
  create_cash_operation-sheet, create_finance_entry-sheet, create_outbox_records-sheet,
  create_audit_log_record-sheet, complete_record-sheet,
}
use sanmarino_crm.Payments.Ledger.Updates.{move-IsBalanced, refund-IsCapped, is_payment}
use sanmarino_crm.Status.{
  PaymentStatus, payment_status_eq, cash_operation_type_eq, ReturnRequestStatus,
  return_request_status_eq,
}

-- The test of a return request that a refund reads.
abbrev pub is_return_of : Text → Text → ReturnRequest → Bool
is_return_of k order_id r = r.id == k && r.order_id == order_id && not r.is_deleted

module _ (D : Database) (digest : HashInput → Text) (payment_id : Text) (order : RefundOrder)
    (actor : Actor) (context : CommandContext) (now : ℕ) (record_id : Text) (db : Db D) where
  -- What a refund has read and written.
  pub record Refunded (id : Text) (db' : Db D) : Type 0 where
    pub payment : Payment
    pub return_request : ReturnRequest
    pub cash_id : Text
    pub entry_id : Text
    pub found : first (is_payment payment_id) (sheet D db).payments ≡ some payment
    pub completed : payment.status ≡ PaymentStatus.completed
    pub linked :
        first (is_return_of order.return_request_id payment.order_id) (sheet D db).returns
        ≡ some return_request
    pub processed : return_request.status ≡ ReturnRequestStatus.processed
    pub covered : payment.refunded_amount + order.amount ≤ payment.amount
    pub fits :
        exceeds_requested return_request.requested_refund_amount
          (returned return_request.id (sheet D db).ops + order.amount)
        ≡ false
    pub answer : id ≡ payment.id
    pub written : sheet D db' ≡ record (sheet D db) {
      payments =
          change
            (λ q. q.id == payment.id)
            (refunded_payment payment.amount (payment.refunded_amount + order.amount))
            (sheet D db).payments;
      ops =
          refund_operation cash_id payment return_request.id order.amount actor.user_id now
          ∷ (sheet D db).ops;
      entries =
          adjustment_entry entry_id payment return_request.id cash_id order actor.user_id now
          ∷ (sheet D db).entries;
    }

  -- A refund that returns has found a payment that is completed and a processed return request of the
  -- same order, the sum of all refunds stays within the payment and within what the return request
  -- asks for, and it has written just one refund of this amount, its adjustment, and the new state of
  -- this payment.
  pub refund_transaction-Refunded :
      Ensures db (refund_transaction D digest payment_id order actor context now record_id) Refunded
  unfolding refund_transaction
  refund_transaction-Refunded = Ensures-gets _ _ (
      Ensures-or_throw _ _ _ λ p found. Ensures-throw_if _ _ _ λ completed. Ensures-gets _ _ (
        Ensures-or_throw _ _ _ λ r linked. Ensures-throw_if _ _ _ λ processed.
          Ensures-throw_if _ _ _ λ covered. Ensures-gets _ _ (
            Ensures-throw_if _ _ _ λ fits. Ensures-modify _ _ (
              Ensures-gets _ _ (
                Ensures-bind (create_cash_operation-sheet D _ _) λ _ d1 h1. Ensures-gets _ _ (
                  Ensures-bind (create_finance_entry-sheet D d1 _) λ _ d2 h2.
                    Ensures-bind (create_outbox_records-sheet D _ d2) λ _ d3 h3.
                      Ensures-bind (create_audit_log_record-sheet D d3 _ _ _ _ _ _ _) λ _ d4 h4.
                        Ensures-bind (complete_record-sheet D d4 _ _) λ _ d5 h5.
                          Ensures-pure _ (record {
                            payment = p;
                            return_request = r;
                            cash_id = D.cash_operations.next_id db.cash_operations;
                            entry_id = D.finance_entries.next_id d1.finance_entries;
                            found = sym (D.payments.find_first_lem _ _) ∙ found;
                            completed = ground arith;
                            linked = sym (D.return_requests.find_first_lem _ _) ∙ linked;
                            processed = ground arith;
                            covered = ground arith;
                            fits = rw D.cash_operations.sum_lem at fits;
                            answer = refl;
                            written = cc (
                              h1,
                              h2,
                              h3,
                              h4,
                              h5,
                              D.payments.update_lem p.id
                                  (refunded_payment p.amount (p.refunded_amount + order.amount))
                                  db.payments,
                            );
                          })))))))

  Refunded-IsSettled :
      {id : Text} {db' : Db D} (c : Refunded id db')
      → IsSettled (sheet D db).ops c.payment
      → IsSettled
          (refund_operation c.cash_id c.payment c.return_request.id order.amount actor.user_id now
            ∷ (sheet D db).ops)
          (refunded_payment c.payment.amount (c.payment.refunded_amount + order.amount) c.payment)
  unfolding total
  Refunded-IsSettled c h = ground (arith, c.completed, c.covered, ==-refl c.payment.id)

  -- A refund keeps the books in balance.
  pub refund_transaction-Balanced :
      Balanced (sheet D db)
      → Ensures db
          (refund_transaction D digest payment_id order actor context now record_id)
          (λ _ db'. Balanced (sheet D db'))
  refund_transaction-Balanced b = Ensures_mono refund_transaction-Refunded λ id db' c.
      subst Balanced (sym c.written) (
        move-IsBalanced b payment_id c.found
          (refunded_payment c.payment.amount (c.payment.refunded_amount + order.amount)) (λ q. refl)
          (refund_operation c.cash_id c.payment c.return_request.id order.amount actor.user_id now)
          (adjustment_entry c.entry_id c.payment c.return_request.id c.cash_id order actor.user_id
            now)
          refl refl refl tt
          (Refunded-IsSettled c (All-first (IsSettled (sheet D db).ops) _ _ b.settled c.found).0)
          (refund-IsCapped _ _ _ (is_return_of order.return_request_id c.payment.order_id)
            b.distinct_returns c.linked (keyed c.return_request _ (first-test _ _ c.linked)) refl
            refl c.fits b.capped))
    where
      keyed :
          (r : ReturnRequest) (o : Text)
          → is_return_of order.return_request_id o r ≡ true
          → (s : ReturnRequest) → is_return_of order.return_request_id o s ≡ true
          → s.id ≡ r.id
      keyed r o h s k = ground arith
