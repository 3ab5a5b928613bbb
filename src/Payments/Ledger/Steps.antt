-- ===== src/Payments/Ledger/Steps.antt =====
-- What each write of a payment command does to the rows of the books.
use sanmarino_crm.Base.{arith, ◌∙◌, ℕ, ◌≡◌, refl, List, [], ◌∷◌, Text, text_eq}
use sanmarino_crm.Records.{
  Payment, CashOperation, FinanceEntry, OutboxEvent, AuditAction, AuditPayload, ResponseBody, Actor,
}
use sanmarino_crm.Action.Ensures.{Ensures, Ensures-pure, Ensures-bind, Ensures_mono}
use sanmarino_crm.Database.{Database, Db}
use sanmarino_crm.Payments.Digest.{HashInput}
use sanmarino_crm.Payments.Idempotency.{CommandContext}
use sanmarino_crm.Payments.Ledger.{sheet}
use sanmarino_crm.Payments.Overlay.{apply_money_control_overlay}
use sanmarino_crm.Table.Insert.{Ensures-create_in}
use sanmarino_crm.Payments.Writes.{
  create_payment, create_cash_operation, create_finance_entry, create_outbox_record,
  create_outbox_records, create_audit_log_record, complete_record,
}

module _ (D : Database) (db : Db D) where
  abbrev Same : {A : Type 0} → A → Db D → Type 0
  Same _ db' = sheet D db' ≡ sheet D db

  pub create_payment-sheet :
      (r : Payment)
      → Ensures db
          (create_payment D r)
          (λ _ db'. sheet D db' ≡ record (sheet D db) { payments = r ∷ (sheet D db).payments })
  unfolding create_payment
  create_payment-sheet r = Ensures-create_in D.payments _ _ r db _ (λ t e. cc e)

  pub create_cash_operation-sheet :
      (r : CashOperation)
      → Ensures db
          (create_cash_operation D r)
          (λ _ db'. sheet D db' ≡ record (sheet D db) { ops = r ∷ (sheet D db).ops })
  unfolding create_cash_operation
  create_cash_operation-sheet r = Ensures-create_in D.cash_operations _ _ r db _ (λ t e. cc e)

  pub create_finance_entry-sheet :
      (r : FinanceEntry)
      → Ensures db
          (create_finance_entry D r)
          (λ _ db'. sheet D db' ≡ record (sheet D db) { entries = r ∷ (sheet D db).entries })
  unfolding create_finance_entry
  create_finance_entry-sheet r = Ensures-create_in D.finance_entries _ _ r db _ (λ t e. cc e)

  pub create_outbox_record-sheet : (e : OutboxEvent) → Ensures db (create_outbox_record D e) Same
  unfolding create_outbox_record
  create_outbox_record-sheet e = record {
    at =
        (Ensures-create_in D.outbox_records (λ x. x.outbox_records)
          (λ t db. record db { outbox_records = t }) _ db Same (λ t e. refl)).at;
  }

  pub create_audit_log_record-sheet :
      (digest : HashInput → Text) (action : AuditAction) (now : ℕ) (id : Text) (actor : Actor)
      (context : CommandContext) (payload : AuditPayload)
      → Ensures db (create_audit_log_record D digest action now id actor context payload) Same
  unfolding create_audit_log_record
  create_audit_log_record-sheet digest action now id actor context payload = record {
    at =
        (Ensures-create_in D.audit_log (λ x. x.audit_log) (λ t db. record db { audit_log = t }) _ db
          Same (λ t e. refl)).at;
  }

  pub apply_money_control_overlay-sheet :
      (order_id : Text) (now : ℕ) → Ensures db (apply_money_control_overlay D order_id now) Same
  unfolding apply_money_control_overlay
  apply_money_control_overlay-sheet order_id now = record { at = ground arith }

  pub complete_record-sheet :
      (id : Text) (body : ResponseBody) → Ensures db (complete_record D id body) Same
  unfolding complete_record
  complete_record-sheet id body = record { at = refl }

module _ (D : Database) where
  pub create_outbox_records-sheet :
      (es : List OutboxEvent) (db : Db D)
      → Ensures db (create_outbox_records D es) (λ _ db'. sheet D db' ≡ sheet D db)
  unfolding create_outbox_records
  create_outbox_records-sheet [] db = Ensures-pure tt refl
  create_outbox_records-sheet (e ∷ es) db =
      Ensures-bind (create_outbox_record-sheet D db e)
        (λ _ db1 h. Ensures_mono (create_outbox_records-sheet es db1) (λ _ _ k. k ∙ h))
