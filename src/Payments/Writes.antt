-- ===== src/Payments/Writes.antt =====
-- The `create` calls of payments.service.ts, the frame that its commands share, and the answer to a
-- repeated command.
use sanmarino_crm.Base.{ℕ, Option, none, some, List, [], ◌∷◌, Text, if◌then◌else◌}
use sanmarino_crm.Records.{
  Payment, CashOperation, FinanceEntry, OutboxEvent, OutboxRecord, AuditLogRecord, AuditAction,
  LoggedAction, AuditPayload, ResponseBody, payment_reference, refund_reference,
  fulfillment_reference, return_request_reference, failure, Actor,
}
use sanmarino_crm.Errors.{conflict_exception, source_of_truth_violation}
use sanmarino_crm.Action.{ok, err, Action, ◌>>=◌, ◌>>◌, pure, transaction}
use sanmarino_crm.Database.{Database, Db}
use sanmarino_crm.Table.Insert.{create_in}
use sanmarino_crm.Payments.Access.{get_payment_or_throw}
use sanmarino_crm.Payments.Digest.{HashInput, build_payment_audit_event_id}
use sanmarino_crm.Payments.Idempotency.{
  CommandContext, Surroundings, update_record, complete, acquire_idempotency, marking_failed,
}
use sanmarino_crm.Payments.Normalize.{trim, non_empty}

-- `resolve_payment_id_from_response_body`
unfoldable pub resolve_payment_id_from_response_body : Option ResponseBody → Option Text
unfolding trim
resolve_payment_id_from_response_body none = none
resolve_payment_id_from_response_body (some (payment_reference p)) = non_empty (trim p)
resolve_payment_id_from_response_body (some (refund_reference p r)) = non_empty (trim p)
resolve_payment_id_from_response_body (some (fulfillment_reference f)) = none
resolve_payment_id_from_response_body (some (return_request_reference r)) = none
resolve_payment_id_from_response_body (some failure) = none

abbrev or_else : Option Text → Option Text → Option Text
or_else (some a) _ = some a
or_else none b = b

module _ (D : Database) where
  unfoldable pub create_payment : Payment → Action (Db D) (Unit {0})
  unfolding create_in
  create_payment =
      create_in D.payments (λ (db : Db D). db.payments) (λ t db. record db { payments = t })

  unfoldable pub create_cash_operation : CashOperation → Action (Db D) (Unit {0})
  unfolding create_in
  create_cash_operation =
      create_in D.cash_operations (λ (db : Db D). db.cash_operations)
        (λ t db. record db { cash_operations = t })

  unfoldable pub create_finance_entry : FinanceEntry → Action (Db D) (Unit {0})
  unfolding create_in
  create_finance_entry =
      create_in D.finance_entries (λ (db : Db D). db.finance_entries)
        (λ t db. record db { finance_entries = t })

  abbrev pub outbox_record : OutboxEvent → Db D → OutboxRecord
  outbox_record e db = record { id = D.outbox_records.next_id db.outbox_records; event = e }

  -- `systemOutboxRecord.createMany`
  unfoldable pub create_outbox_record : OutboxEvent → Action (Db D) (Unit {0})
  unfolding create_in
  create_outbox_record e db =
      create_in D.outbox_records (λ (db : Db D). db.outbox_records)
        (λ t db. record db { outbox_records = t }) (outbox_record e db) db

  -- `systemOutboxRecord.createMany`
  unfoldable pub create_outbox_records : List OutboxEvent → Action (Db D) (Unit {0})
  unfolding create_outbox_record
  create_outbox_records [] = pure tt
  create_outbox_records (e ∷ es) = create_outbox_record e >> create_outbox_records es

  abbrev pub audit_log_record :
      (HashInput → Text)
      → AuditAction
      → ℕ
      → Text
      → Actor
      → CommandContext
      → AuditPayload
      → Db D
      → AuditLogRecord
  audit_log_record digest action at entity_id actor context payload db = record {
    id = D.audit_log.next_id db.audit_log;
    event_id = build_payment_audit_event_id digest action entity_id context.idempotency_key;
    occurred_at = at;
    action = LoggedAction.payment_action action;
    entity_id = entity_id;
    actor_user_id = actor.user_id;
    request_id = context.request_id;
    correlation_id = context.correlation_id;
    payload = payload;
  }

  unfoldable pub create_audit_log_record :
      (HashInput → Text)
      → AuditAction
      → ℕ
      → Text
      → Actor
      → CommandContext
      → AuditPayload
      → Action (Db D) (Unit {0})
  unfolding create_in build_payment_audit_event_id
  create_audit_log_record digest action at entity_id actor context payload db =
      create_in D.audit_log (λ (db : Db D). db.audit_log) (λ t db. record db { audit_log = t })
        (audit_log_record digest action at entity_id actor context payload db) db

  unfoldable pub complete_record : Text → ResponseBody → Action (Db D) (Unit {0})
  complete_record record_id body db = (ok tt, update_record D record_id (complete body) db)

  -- `resolve_replayed_payment`
  unfoldable pub resolve_replayed_payment :
      Option ResponseBody → Actor → Option Text → Action (Db D) Payment
  unfolding resolve_payment_id_from_response_body get_payment_or_throw
  resolve_replayed_payment body actor fallback db =
      elim (or_else (resolve_payment_id_from_response_body body) fallback) [
        | none ↦ (err (conflict_exception source_of_truth_violation), db)
        | some payment_id ↦ get_payment_or_throw D payment_id actor db
      ]

  -- The frame of the four commands. The last read stands after the `try`: a promise that `return`
  -- passes on without `await` is not caught there.
  unfoldable pub run_command :
      Surroundings D
      → Text
      → Text
      → Text
      → Actor
      → Option Text
      → (Text → Action (Db D) Text)
      → Action (Db D) Payment
  unfolding acquire_idempotency resolve_replayed_payment get_payment_or_throw
  run_command around scope key request_hash actor fallback body = do
    idempotency ← acquire_idempotency D around scope key request_hash
    if idempotency.replayed
        then resolve_replayed_payment idempotency.response_body actor fallback
        else (marking_failed D idempotency.record_id (transaction (body idempotency.record_id))
            >>= λ payment_id. get_payment_or_throw D payment_id actor)
