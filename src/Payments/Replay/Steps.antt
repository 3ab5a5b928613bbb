-- ===== src/Payments/Replay/Steps.antt =====
-- Which writes of a payment command touch the idempotency records.
use sanmarino_crm.Base.{arith, ℕ, ◌≡◌, refl, ◌∙◌, List, [], ◌∷◌, Text}
use sanmarino_crm.Records.{
  Payment, CashOperation, FinanceEntry, OutboxEvent, AuditAction, AuditPayload, Actor,
}
use sanmarino_crm.Action.Ensures.{Ensures, Ensures-pure, Ensures-bind, Ensures_mono}
use sanmarino_crm.Database.{Database, Db}
use sanmarino_crm.Payments.Digest.{HashInput}
use sanmarino_crm.Payments.Idempotency.{CommandContext}
use sanmarino_crm.Payments.Overlay.{apply_money_control_overlay}
use sanmarino_crm.Table.Insert.{Ensures-create_in}
use sanmarino_crm.Payments.Writes.{
  create_payment, create_cash_operation, create_finance_entry, create_outbox_record,
  create_outbox_records, create_audit_log_record,
}

module _ (D : Database) (db : Db D) where
  abbrev Kept : {A : Type 0} → A → Db D → Type 0
  Kept _ t = t.idempotency_records ≡ db.idempotency_records

  pub create_payment-records : (r : Payment) → Ensures db (create_payment D r) Kept
  unfolding create_payment
  create_payment-records r = Ensures-create_in D.payments _ _ r db _ (λ t e. refl)

  pub create_cash_operation-records :
      (r : CashOperation) → Ensures db (create_cash_operation D r) Kept
  unfolding create_cash_operation
  create_cash_operation-records r = Ensures-create_in D.cash_operations _ _ r db _ (λ t e. refl)

  pub create_finance_entry-records : (r : FinanceEntry) → Ensures db (create_finance_entry D r) Kept
  unfolding create_finance_entry
  create_finance_entry-records r = Ensures-create_in D.finance_entries _ _ r db _ (λ t e. refl)

  create_outbox_record-records : (e : OutboxEvent) → Ensures db (create_outbox_record D e) Kept
  unfolding create_outbox_record
  create_outbox_record-records e = record {
    at =
        (Ensures-create_in D.outbox_records (λ x. x.outbox_records)
          (λ t db. record db { outbox_records = t }) _ db Kept (λ t e. refl)).at;
  }

  pub create_audit_log_record-records :
      (digest : HashInput → Text) (action : AuditAction) (now : ℕ) (id : Text) (actor : Actor)
      (context : CommandContext) (payload : AuditPayload)
      → Ensures db (create_audit_log_record D digest action now id actor context payload) Kept
  unfolding create_audit_log_record
  create_audit_log_record-records digest action now id actor context payload = record {
    at =
        (Ensures-create_in D.audit_log (λ x. x.audit_log) (λ t db. record db { audit_log = t }) _ db
          Kept (λ t e. refl)).at;
  }

  pub apply_money_control_overlay-records :
      (order_id : Text) (now : ℕ) → Ensures db (apply_money_control_overlay D order_id now) Kept
  unfolding apply_money_control_overlay
  apply_money_control_overlay-records order_id now = record { at = ground arith }

module _ (D : Database) where
  pub create_outbox_records-records :
      (es : List OutboxEvent) (db : Db D)
      → Ensures db
          (create_outbox_records D es)
          (λ _ t. t.idempotency_records ≡ db.idempotency_records)
  unfolding create_outbox_records
  create_outbox_records-records [] db = Ensures-pure tt refl
  create_outbox_records-records (e ∷ es) db =
      Ensures-bind (create_outbox_record-records D db e)
        (λ _ db1 h. Ensures_mono (create_outbox_records-records es db1) (λ _ _ k. k ∙ h))
