-- ===== src/Payments/Replay/Transactions.antt =====
-- The transactions of payments.service.ts end with the completion of their idempotency record.
use sanmarino_crm.Base.{ℕ, ◌≡◌, refl, ◌∙◌, ap, Option, Text, text_eq, ◌==◌, change}
use sanmarino_crm.Action.Ensures.{
  Ensures, Ensures-pure, Ensures-bind, Ensures-gets, Ensures-or_throw, Ensures-throw_if,
  Ensures-modify,
}
use sanmarino_crm.Database.{Database, Db}
use sanmarino_crm.Records.{Actor, ResponseBody}
use sanmarino_crm.Payments.Digest.{HashInput}
use sanmarino_crm.Payments.Idempotency.{CommandContext, complete}
use sanmarino_crm.Payments.Intake.{IntakeFact, intake_transaction}
use sanmarino_crm.Payments.Confirm.{confirm_transaction}
use sanmarino_crm.Payments.Reject.{reject_transaction}
use sanmarino_crm.Payments.Refund.{RefundOrder, refund_transaction}
use sanmarino_crm.Payments.Writes.{complete_record}
use sanmarino_crm.Payments.Replay.Once.{Completed, Names}
use sanmarino_crm.Payments.Replay.Steps.{
  create_payment-records, create_cash_operation-records, create_finance_entry-records,
  create_outbox_records-records, create_audit_log_record-records,
  apply_money_control_overlay-records,
}
use sanmarino_crm.Status.{payment_status_eq, return_request_status_eq}

module _ (D : Database) (digest : HashInput → Text) (actor : Actor) (context : CommandContext)
    (now : ℕ) (record_id : Text) (db : Db D) where
  -- The completion, after writes that have left the records alone.
  complete_record-Completed :
      (body : ResponseBody) (id : Text) (t : Db D)
      → Names body id
      → t.idempotency_records ≡ db.idempotency_records
      → Ensures t (complete_record D record_id body) (λ _ u. Completed D record_id db id u)
  unfolding complete_record
  complete_record-Completed body id t n same = record {
    at = record {
      body = body;
      names = n;
      kept =
          D.idempotency_records.update_lem record_id (complete body) t.idempotency_records
          ∙ ap (λ s. change (λ r. r.id == record_id) (complete body) (D.idempotency_records.rows s))
              same;
    };
  }

  pub intake_transaction-Completed :
      (fact : IntakeFact)
      → Ensures db
          (intake_transaction D digest fact actor context now record_id)
          (Completed D record_id db)
  unfolding intake_transaction
  intake_transaction-Completed fact = Ensures-gets _ _ (
      Ensures-or_throw _ _ _ λ o found. Ensures-gets _ _ (
        Ensures-bind (create_payment-records D db _) λ _ d1 h1.
          Ensures-bind (create_outbox_records-records D _ d1) λ _ d2 h2.
            Ensures-bind (create_audit_log_record-records D d2 _ _ _ _ _ _ _) λ _ d3 h3.
              Ensures-bind (complete_record-Completed _ _ d3 refl (h3 ∙ (h2 ∙ h1)))
                λ _ d4 c. Ensures-pure _ c))

  pub confirm_transaction-Completed :
      (payment_id : Text)
      → Ensures db
          (confirm_transaction D digest payment_id actor context now record_id)
          (Completed D record_id db)
  unfolding confirm_transaction
  confirm_transaction-Completed payment_id = Ensures-gets _ _ (
      Ensures-or_throw _ _ _ λ p found. Ensures-throw_if _ _ _ λ pending. Ensures-modify _ _ (
        Ensures-gets _ _ (
          Ensures-bind (create_cash_operation-records D _ _) λ _ d1 h1. Ensures-gets _ _ (
            Ensures-bind (create_finance_entry-records D d1 _) λ _ d2 h2.
              Ensures-bind (apply_money_control_overlay-records D d2 _ _) λ _ d3 h3.
                Ensures-bind (create_outbox_records-records D _ d3) λ _ d4 h4.
                  Ensures-bind (create_audit_log_record-records D d4 _ _ _ _ _ _ _) λ _ d5 h5.
                    Ensures-bind
                      (complete_record-Completed _ _ d5 refl (h5 ∙ (h4 ∙ (h3 ∙ (h2 ∙ h1)))))
                      λ _ d6 c. Ensures-pure _ c))))

  pub reject_transaction-Completed :
      (payment_id : Text) (reason : Option Text)
      → Ensures db
          (reject_transaction D digest payment_id reason actor context now record_id)
          (Completed D record_id db)
  unfolding reject_transaction
  reject_transaction-Completed payment_id reason = Ensures-gets _ _ (
      Ensures-or_throw _ _ _ λ p found. Ensures-throw_if _ _ _ λ pending. Ensures-modify _ _ (
        Ensures-bind (create_outbox_records-records D _ _) λ _ d1 h1.
          Ensures-bind (create_audit_log_record-records D d1 _ _ _ _ _ _ _) λ _ d2 h2.
            Ensures-bind (complete_record-Completed _ _ d2 refl (h2 ∙ h1))
              λ _ d3 c. Ensures-pure _ c))

  pub refund_transaction-Completed :
      (payment_id : Text) (order : RefundOrder)
      → Ensures db
          (refund_transaction D digest payment_id order actor context now record_id)
          (Completed D record_id db)
  unfolding refund_transaction
  refund_transaction-Completed payment_id order = Ensures-gets _ _ (
      Ensures-or_throw _ _ _ λ p found. Ensures-throw_if _ _ _ λ completed. Ensures-gets _ _ (
        Ensures-or_throw _ _ _ λ r linked. Ensures-throw_if _ _ _ λ processed.
          Ensures-throw_if _ _ _ λ covered. Ensures-gets _ _ (
            Ensures-throw_if _ _ _ λ fits. Ensures-modify _ _ (
              Ensures-gets _ _ (
                Ensures-bind (create_cash_operation-records D _ _) λ _ d1 h1. Ensures-gets _ _ (
                  Ensures-bind (create_finance_entry-records D d1 _) λ _ d2 h2.
                    Ensures-bind (create_outbox_records-records D _ d2) λ _ d3 h3.
                      Ensures-bind (create_audit_log_record-records D d3 _ _ _ _ _ _ _) λ _ d4 h4.
                        Ensures-bind (complete_record-Completed _ _ d4 refl (h4 ∙ (h3 ∙ (h2 ∙ h1))))
                          λ _ d5 c. Ensures-pure _ c))))))
