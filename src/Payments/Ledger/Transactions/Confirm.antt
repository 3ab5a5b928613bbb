-- ===== src/Payments/Ledger/Transactions/Confirm.antt =====
-- `confirmExternalPaymentFact`: the transaction as one update of the books, which keeps them in balance.
use mathlib.Core.Path.{subst}
use sanmarino_crm.Base.{
  ℕ, ◌≡◌, ◌∙◌, sym, refl, some, ◌∷◌, Text, text_eq, ◌==◌, change, first, arith, All-first, ==-refl,
  total,
}
use sanmarino_crm.Action.Ensures.{
  Ensures, Ensures_mono, Ensures-pure, Ensures-bind, Ensures-gets, Ensures-or_throw,
  Ensures-throw_if, Ensures-modify,
}
use sanmarino_crm.Database.{Database, Db}
use sanmarino_crm.Records.{Payment, Actor}
use sanmarino_crm.Payments.Digest.{HashInput}
use sanmarino_crm.Payments.Idempotency.{CommandContext}
use sanmarino_crm.Payments.Confirm.{
  confirm_transaction, completed_payment, cash_in_operation, income_entry, received_or,
}
use sanmarino_crm.Payments.Ledger.{sheet, Balanced, IsSettled}
use sanmarino_crm.Payments.Ledger.Steps.{
  create_cash_operation-sheet, create_finance_entry-sheet, create_outbox_records-sheet,
  create_audit_log_record-sheet, apply_money_control_overlay-sheet, complete_record-sheet,
}
use sanmarino_crm.Payments.Ledger.Updates.{move-IsBalanced, cash_in-IsCapped, is_payment}
use sanmarino_crm.Status.{PaymentStatus, payment_status_eq}

module _ (D : Database) (digest : HashInput → Text) (payment_id : Text) (actor : Actor)
    (context : CommandContext) (now : ℕ) (record_id : Text) (db : Db D) where
  -- What a confirmation has read and written.
  pub record Confirmed (id : Text) (db' : Db D) : Type 0 where
    pub payment : Payment
    pub cash_id : Text
    pub entry_id : Text
    pub found : first (is_payment payment_id) (sheet D db).payments ≡ some payment
    pub pending : payment.status ≡ PaymentStatus.pending
    pub answer : id ≡ payment.id
    pub at : ℕ
    pub written : sheet D db' ≡ record (sheet D db) {
      payments =
          change
            (λ q. q.id == payment.id)
            (completed_payment actor.user_id at)
            (sheet D db).payments;
      ops = cash_in_operation cash_id payment actor.user_id at ∷ (sheet D db).ops;
      entries = income_entry entry_id payment cash_id actor.user_id at ∷ (sheet D db).entries;
    }

  -- A confirmation that returns has found a payment that is pending, and has written just one cash
  -- receipt and one income entry of its amount, and the payment as completed.
  pub confirm_transaction-Confirmed :
      Ensures db (confirm_transaction D digest payment_id actor context now record_id) Confirmed
  unfolding confirm_transaction
  confirm_transaction-Confirmed = Ensures-gets _ _ (
      Ensures-or_throw _ _ _ λ p found. Ensures-throw_if _ _ _ λ pending. Ensures-modify _ _ (
        Ensures-gets _ _ (
          Ensures-bind (create_cash_operation-sheet D _ _) λ _ d1 h1. Ensures-gets _ _ (
            Ensures-bind (create_finance_entry-sheet D d1 _) λ _ d2 h2.
              Ensures-bind (apply_money_control_overlay-sheet D d2 _ _) λ _ d3 h3.
                Ensures-bind (create_outbox_records-sheet D _ d3) λ _ d4 h4.
                  Ensures-bind (create_audit_log_record-sheet D d4 _ _ _ _ _ _ _) λ _ d5 h5.
                    Ensures-bind (complete_record-sheet D d5 _ _) λ _ d6 h6.
                      Ensures-pure _ (record {
                        payment = p;
                        cash_id = D.cash_operations.next_id db.cash_operations;
                        entry_id = D.finance_entries.next_id d1.finance_entries;
                        found = sym (D.payments.find_first_lem _ _) ∙ found;
                        pending = ground arith;
                        answer = refl;
                        at = received_or now p.received_at;
                        written = cc (
                          h1,
                          h2,
                          h3,
                          h4,
                          h5,
                          h6,
                          D.payments.update_lem p.id
                              (completed_payment actor.user_id (received_or now p.received_at))
                              db.payments,
                        );
                      })))))

  Confirmed-IsSettled :
      {id : Text} {db' : Db D} (c : Confirmed id db')
      → IsSettled (sheet D db).ops c.payment
      → IsSettled
          (cash_in_operation c.cash_id c.payment actor.user_id c.at ∷ (sheet D db).ops)
          (completed_payment actor.user_id c.at c.payment)
  unfolding total
  Confirmed-IsSettled c h = ground (arith, c.pending, ==-refl c.payment.id)

  -- A confirmation keeps the books in balance.
  pub confirm_transaction-Balanced :
      Balanced (sheet D db)
      → Ensures db
          (confirm_transaction D digest payment_id actor context now record_id)
          (λ _ db'. Balanced (sheet D db'))
  confirm_transaction-Balanced b = Ensures_mono confirm_transaction-Confirmed λ id db' c.
      subst Balanced (sym c.written) (
        move-IsBalanced b payment_id c.found (completed_payment actor.user_id c.at) (λ q. refl)
          (cash_in_operation c.cash_id c.payment actor.user_id c.at)
          (income_entry c.entry_id c.payment c.cash_id actor.user_id c.at) refl refl refl tt
          (Confirmed-IsSettled c (All-first (IsSettled (sheet D db).ops) _ _ b.settled c.found).0)
          (cash_in-IsCapped _ _ _ refl b.capped))
