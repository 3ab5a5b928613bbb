-- ===== src/Payments/Ledger/Transactions/Reject.antt =====
-- `rejectExternalPaymentFact`: the transaction as one update of the books, which keeps them in balance.
use mathlib.Core.Path.{subst}
use sanmarino_crm.Base.{
  ℕ, ◌≡◌, ◌∙◌, sym, refl, Option, some, Text, text_eq, ◌==◌, change, first, arith, All-first,
}
use sanmarino_crm.Action.Ensures.{
  Ensures, Ensures_mono, Ensures-pure, Ensures-bind, Ensures-gets, Ensures-or_throw,
  Ensures-throw_if, Ensures-modify,
}
use sanmarino_crm.Database.{Database, Db}
use sanmarino_crm.Records.{Payment, Actor}
use sanmarino_crm.Payments.Digest.{HashInput}
use sanmarino_crm.Payments.Idempotency.{CommandContext}
use sanmarino_crm.Payments.Reject.{reject_transaction, rejected_payment}
use sanmarino_crm.Payments.Ledger.{sheet, Balanced, IsSettled}
use sanmarino_crm.Payments.Ledger.Steps.{
  create_outbox_records-sheet, create_audit_log_record-sheet, complete_record-sheet,
}
use sanmarino_crm.Payments.Ledger.Updates.{update-IsBalanced, is_payment}
use sanmarino_crm.Status.{PaymentStatus, payment_status_eq}

module _ (D : Database) (digest : HashInput → Text) (payment_id : Text) (reason : Option Text)
    (actor : Actor) (context : CommandContext) (now : ℕ) (record_id : Text) (db : Db D) where
  -- What a rejection has read and written.
  pub record Rejected (id : Text) (db' : Db D) : Type 0 where
    pub payment : Payment
    pub found : first (is_payment payment_id) (sheet D db).payments ≡ some payment
    pub pending : payment.status ≡ PaymentStatus.pending
    pub answer : id ≡ payment.id
    pub written : sheet D db' ≡ record (sheet D db) {
      payments = change (λ q. q.id == payment.id) (rejected_payment now) (sheet D db).payments;
    }

  pub reject_transaction-Rejected :
      Ensures db
        (reject_transaction D digest payment_id reason actor context now record_id)
        Rejected
  unfolding reject_transaction
  reject_transaction-Rejected = Ensures-gets _ _ (
      Ensures-or_throw _ _ _ λ p found. Ensures-throw_if _ _ _ λ pending. Ensures-modify _ _ (
        Ensures-bind (create_outbox_records-sheet D _ _) λ _ d1 h1.
          Ensures-bind (create_audit_log_record-sheet D d1 _ _ _ _ _ _ _) λ _ d2 h2.
            Ensures-bind (complete_record-sheet D d2 _ _) λ _ d3 h3. Ensures-pure _ (record {
              payment = p;
              found = sym (D.payments.find_first_lem _ _) ∙ found;
              pending = ground arith;
              answer = refl;
              written =
                  cc (h1, h2, h3, D.payments.update_lem p.id (rejected_payment now) db.payments);
            })))

  -- A rejection keeps the books in balance.
  pub reject_transaction-Balanced :
      Balanced (sheet D db)
      → Ensures db
          (reject_transaction D digest payment_id reason actor context now record_id)
          (λ _ db'. Balanced (sheet D db'))
  reject_transaction-Balanced b = Ensures_mono reject_transaction-Rejected λ id db' c.
      subst Balanced (sym c.written) (
        update-IsBalanced b payment_id c.found (rejected_payment now) (λ q. refl)
          (settled c.payment c.pending
            (All-first (IsSettled (sheet D db).ops) _ _ b.settled c.found).0))
    where
      settled :
          (p : Payment)
          → p.status ≡ PaymentStatus.pending
          → IsSettled (sheet D db).ops p
          → IsSettled (sheet D db).ops (rejected_payment now p)
      settled p e h = ground arith
