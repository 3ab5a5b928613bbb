-- ===== src/Payments/Totality.antt =====
-- When the transactions of payments.service.ts return: each of their writes succeeds, but for the
-- audit record, whose event identifier is unique.
pub mod Confirm
pub mod Refund
use sanmarino_crm.Base.{
  arith, ℕ, ◌≡◌, ◌≢◌, refl, ap, sym, ◌∙◌, Bool, true, false, List, [], ◌∷◌, Text, text_eq, ◌==◌,
  any, All,
}
use sanmarino_crm.Records.{
  Payment, CashOperation, FinanceEntry, OutboxEvent, AuditLogRecord, AuditAction, AuditPayload,
  ResponseBody, Actor,
}
use sanmarino_crm.Action.Succeeds.{Succeeds, Succeeds-pure, Succeeds-bind}
use sanmarino_crm.Database.{Database, Db, any-unconstrained, audit_clash}
use sanmarino_crm.Payments.Digest.{HashInput, build_payment_audit_event_id}
use sanmarino_crm.Payments.Idempotency.{CommandContext}
use sanmarino_crm.Payments.Overlay.{apply_money_control_overlay}
use sanmarino_crm.Action.{ok}
use sanmarino_crm.Status.{order_control_overlay_status_eq}
use sanmarino_crm.Transition.{assert_transition}
use sanmarino_crm.Transition.Matrices.{assert_order_control_overlay_transition}
use sanmarino_crm.Table.Insert.{Succeeds-create_in}
use sanmarino_crm.Payments.Writes.{
  create_cash_operation, create_finance_entry, create_outbox_record, create_outbox_records,
  create_audit_log_record, complete_record, audit_log_record, outbox_record,
}

-- No audit record has the identifier.
abbrev pub IsUnused : Text → List AuditLogRecord → Type 0
IsUnused event_id = All (λ a. a.event_id ≢ event_id)

IsUnused-any :
    (r : AuditLogRecord) (l : List AuditLogRecord)
    → IsUnused r.event_id l
    → any (audit_clash r) l ≡ false
unfolding any
IsUnused-any r [] h = refl
IsUnused-any r (a ∷ l) h = ground (arith, h.0, IsUnused-any r l h.1)

module _ (D : Database) (db : Db D) where
  abbrev AuditKept : {A : Type 0} → A → Db D → Type 0
  AuditKept _ t = t.audit_log ≡ db.audit_log

  pub create_cash_operation-Succeeds :
      (r : CashOperation) → Succeeds db (create_cash_operation D r) AuditKept
  unfolding create_cash_operation
  create_cash_operation-Succeeds r =
      Succeeds-create_in D.cash_operations _ _ r db _ (any-unconstrained r _) (λ t e. refl)

  pub create_finance_entry-Succeeds :
      (r : FinanceEntry) → Succeeds db (create_finance_entry D r) AuditKept
  unfolding create_finance_entry
  create_finance_entry-Succeeds r =
      Succeeds-create_in D.finance_entries _ _ r db _ (any-unconstrained r _) (λ t e. refl)

  create_outbox_record-Succeeds :
      (e : OutboxEvent) → Succeeds db (create_outbox_record D e) AuditKept
  unfolding create_outbox_record
  create_outbox_record-Succeeds e =
      let h =
        Succeeds-create_in D.outbox_records (λ x. x.outbox_records)
          (λ t db. record db { outbox_records = t }) (outbox_record D e db) db AuditKept
          (any-unconstrained (outbox_record D e db) _) (λ t e. refl) in
      record { value = h.value; after = h.after; run = h.run; holds = h.holds }

  -- The matrix allows both changes of the overlay.
  overlay-ok :
      (order_id : Text) (now : ℕ) → (apply_money_control_overlay D order_id now db).0 ≡ ok tt
  unfolding apply_money_control_overlay assert_order_control_overlay_transition assert_transition
      order_control_overlay_status_eq
  overlay-ok order_id now = ground arith

  overlay-audit_log :
      (order_id : Text) (now : ℕ)
      → (apply_money_control_overlay D order_id now db).1.audit_log ≡ db.audit_log
  unfolding apply_money_control_overlay
  overlay-audit_log order_id now = ground arith

  pub apply_money_control_overlay-Succeeds :
      (order_id : Text) (now : ℕ)
      → Succeeds db (apply_money_control_overlay D order_id now) AuditKept
  apply_money_control_overlay-Succeeds order_id now = record {
    value = tt;
    after = (apply_money_control_overlay D order_id now db).1;
    run =
        ap (λ r. (r, (apply_money_control_overlay D order_id now db).1)) (overlay-ok order_id now);
    holds = overlay-audit_log order_id now;
  }

  pub create_audit_log_record-Succeeds :
      (digest : HashInput → Text) (action : AuditAction) (now : ℕ) (id : Text) (actor : Actor)
      (context : CommandContext) (payload : AuditPayload)
      → IsUnused
          (build_payment_audit_event_id digest action id context.idempotency_key)
          (D.audit_log.rows db.audit_log)
      → Succeeds db
          (create_audit_log_record D digest action now id actor context payload)
          (λ _ _. Unit {0})
  unfolding create_audit_log_record
  create_audit_log_record-Succeeds digest action now id actor context payload unused =
      let h =
        Succeeds-create_in D.audit_log (λ x. x.audit_log) (λ t db. record db { audit_log = t })
          (audit_log_record D digest action now id actor context payload db) db (λ _ _. Unit {0})
          (IsUnused-any (audit_log_record D digest action now id actor context payload db) _ unused)
          (λ t e. tt) in
      record { value = h.value; after = h.after; run = h.run; holds = h.holds }

  pub complete_record-Succeeds :
      (id : Text) (body : ResponseBody) → Succeeds db (complete_record D id body) (λ _ _. Unit {0})
  unfolding complete_record
  complete_record-Succeeds id body = record { value = tt; after = _; run = refl; holds = tt }

module _ (D : Database) where
  pub create_outbox_records-Succeeds :
      (es : List OutboxEvent) (db : Db D)
      → Succeeds db (create_outbox_records D es) (λ _ t. t.audit_log ≡ db.audit_log)
  unfolding create_outbox_records
  create_outbox_records-Succeeds [] db = Succeeds-pure tt refl
  create_outbox_records-Succeeds (e ∷ es) db =
      Succeeds-bind (create_outbox_record-Succeeds D db e) λ _ t h.
        let rest = create_outbox_records-Succeeds es t in
        record { value = rest.value; after = rest.after; run = rest.run; holds = rest.holds ∙ h }
