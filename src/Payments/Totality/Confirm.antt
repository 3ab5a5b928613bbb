-- ===== src/Payments/Totality/Confirm.antt =====
-- `confirmExternalPaymentFact`: when its transaction returns.
use sanmarino_crm.Base.{first-test, ℕ, ◌≡◌, ◌↔◌, sym, refl, ◌∙◌, some, Text, text_eq, first, arith}
use mathlib.Core.Path.{subst}
use sanmarino_crm.Action.{ok}
use sanmarino_crm.Action.Succeeds.{
  Succeeds, Succeeds-pure, Succeeds-bind, Succeeds-gets, Succeeds-or_throw, Succeeds-throw_if,
  Succeeds-modify,
}
use sanmarino_crm.Action.Ensures.{Ensures-elim}
use sanmarino_crm.Database.{Database, Db}
use sanmarino_crm.Records.{Payment, Actor, confirm}
use sanmarino_crm.Payments.Digest.{HashInput, build_payment_audit_event_id}
use sanmarino_crm.Payments.Idempotency.{CommandContext}
use sanmarino_crm.Payments.Confirm.{confirm_transaction}
use sanmarino_crm.Payments.Ledger.{sheet}
use sanmarino_crm.Payments.Ledger.Updates.{is_payment, is_payment-id}
use sanmarino_crm.Payments.Ledger.Transactions.Confirm.{confirm_transaction-Confirmed}
use sanmarino_crm.Payments.Totality.{
  IsUnused, create_cash_operation-Succeeds, create_finance_entry-Succeeds,
  create_outbox_records-Succeeds, apply_money_control_overlay-Succeeds,
  create_audit_log_record-Succeeds, complete_record-Succeeds,
}
use sanmarino_crm.Status.{PaymentStatus, payment_status_eq, return_request_status_eq}

module _ (D : Database) (digest : HashInput → Text) (payment_id : Text) (actor : Actor)
    (context : CommandContext) (now : ℕ) (record_id : Text) (db : Db D) where
  abbrev IsFree : Text → Db D → Type 0
  IsFree id t =
      IsUnused (build_payment_audit_event_id digest confirm id context.idempotency_key)
        (D.audit_log.rows t.audit_log)

  -- What a confirmation asks of the database.
  pub record Confirmable : Type 0 where
    pub payment : Payment
    pub found : first (is_payment payment_id) (sheet D db).payments ≡ some payment
    pub pending : payment.status ≡ PaymentStatus.pending

  Confirmable-Succeeds :
      (c : Confirmable)
      → IsFree c.payment.id db
      → Succeeds db
          (confirm_transaction D digest payment_id actor context now record_id)
          (λ id _. id ≡ c.payment.id)
  unfolding confirm_transaction
  Confirmable-Succeeds c free = Succeeds-gets _ _ (
      Succeeds-or_throw _ _ (D.payments.find_first_lem _ _ ∙ c.found) (
        Succeeds-throw_if _ _ (ground (arith, c.pending)) (
          Succeeds-modify _ _ (
            Succeeds-gets _ _ (
              Succeeds-bind (create_cash_operation-Succeeds D _ _) λ _ d1 h1. Succeeds-gets _ _ (
                Succeeds-bind (create_finance_entry-Succeeds D d1 _) λ _ d2 h2.
                  Succeeds-bind (apply_money_control_overlay-Succeeds D d2 _ _) λ _ d3 h3.
                    Succeeds-bind (create_outbox_records-Succeeds D _ d3) λ _ d4 h4.
                      Succeeds-bind
                        (create_audit_log_record-Succeeds D d4 digest confirm _ c.payment.id actor
                          context _
                          (subst
                            (λ s.
                              IsUnused
                                (build_payment_audit_event_id digest confirm c.payment.id
                                  context.idempotency_key)
                                (D.audit_log.rows s))
                            (sym (h4 ∙ (h3 ∙ (h2 ∙ h1)))) free))
                        λ _ d5 h5.
                          Succeeds-bind (complete_record-Succeeds D d5 _ _)
                            λ _ d6 h6. Succeeds-pure _ refl))))))

  -- The transaction of a confirmation returns just when the payment is pending; the identifier of its
  -- audit record is not in use.
  pub confirm_transaction_returns :
      IsFree payment_id db
      → ((id : Text) × (t : Db D) × (confirm_transaction D digest payment_id actor context now
              record_id db
            ≡ (ok id, t)))
        ↔ Confirmable
  confirm_transaction_returns free = (
    λ (id, t, e).
        let c =
          Ensures-elim
            (confirm_transaction-Confirmed D digest payment_id actor context now record_id db) e in
        record { payment = c.payment; found = c.found; pending = c.pending },
    λ c.
        let own : c.payment.id ≡ payment_id =
          is_payment-id payment_id c.payment (first-test (is_payment payment_id) _ c.found) in
        let h = Confirmable-Succeeds c (subst (λ id. IsFree id db) (sym own) free) in
        (h.value, h.after, h.run),
  )
