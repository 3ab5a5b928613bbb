-- ===== src/Payments/Ledger/Transactions/Intake.antt =====
-- `intakeExternalPaymentFact`: the transaction as one update of the books, which keeps them in balance.
use mathlib.Core.Path.{subst}
use sanmarino_crm.Base.{◌≢◌, ℕ, ◌<◌, ◌≡◌, sym, refl, ◌∷◌, Text, text_eq, All}
use sanmarino_crm.Action.Ensures.{
  Ensures, Ensures_mono, Ensures-pure, Ensures-bind, Ensures-gets, Ensures-or_throw,
}
use sanmarino_crm.Database.{Database, Db}
use sanmarino_crm.Records.{Actor}
use sanmarino_crm.Payments.Digest.{HashInput}
use sanmarino_crm.Payments.Idempotency.{CommandContext}
use sanmarino_crm.Payments.Intake.{IntakeFact, intake_transaction, intaked_payment}
use sanmarino_crm.Payments.Ledger.{sheet, Balanced}
use sanmarino_crm.Payments.Ledger.Steps.{
  create_payment-sheet, create_outbox_records-sheet, create_audit_log_record-sheet,
  complete_record-sheet,
}
use sanmarino_crm.Payments.Ledger.Updates.{create-IsBalanced}
use sanmarino_crm.Status.{payment_status_eq}

module _ (D : Database) (digest : HashInput → Text) (fact : IntakeFact) (actor : Actor)
    (context : CommandContext) (now : ℕ) (record_id : Text) (db : Db D) where
  -- What an intake has read and written.
  pub record Intaked (id : Text) (db' : Db D) : Type 0 where
    pub fresh : All (λ p. p.id ≢ id) (sheet D db).payments
    pub written : sheet D db' ≡ record (sheet D db) {
      payments = intaked_payment D digest id fact actor context now ∷ (sheet D db).payments;
    }

  pub intake_transaction-Intaked :
      Ensures db (intake_transaction D digest fact actor context now record_id) Intaked
  unfolding intake_transaction
  intake_transaction-Intaked = Ensures-gets _ _ (
      Ensures-or_throw _ _ _ λ o found. Ensures-gets _ _ (
        Ensures-bind (create_payment-sheet D db _) λ _ d1 h1.
          Ensures-bind (create_outbox_records-sheet D _ d1) λ _ d2 h2.
            Ensures-bind (create_audit_log_record-sheet D d2 _ _ _ _ _ _ _) λ _ d3 h3.
              Ensures-bind (complete_record-sheet D d3 _ _) λ _ d4 h4. Ensures-pure _ (record {
                fresh = D.payments.next_id-fresh db.payments;
                written = cc (h1, h2, h3, h4);
              })))

  -- An intake of a positive amount keeps the books in balance.
  pub intake_transaction-Balanced :
      0 < fact.amount
      → Balanced (sheet D db)
      → Ensures db
          (intake_transaction D digest fact actor context now record_id)
          (λ _ db'. Balanced (sheet D db'))
  intake_transaction-Balanced positive b = Ensures_mono intake_transaction-Intaked λ id db' c.
      subst Balanced (sym c.written) (
        create-IsBalanced b (intaked_payment D digest id fact actor context now) c.fresh positive
          refl refl)
