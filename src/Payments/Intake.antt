-- ===== src/Payments/Intake.antt =====
-- `intakeExternalPaymentFact` of payments.service.ts.
use sanmarino_crm.Base.{ℕ, Bool, ◌&&◌, not, Option, none, [], ◌∷◌, Text, text, text_eq, ◌==◌}
use sanmarino_crm.Records.{
  Payment, Actor, external_fact_intaked, intake, intake_payload, payment_reference,
}
use sanmarino_crm.Errors.{not_found_exception}
use sanmarino_crm.Action.{from_result, Action, ◌>>=◌, ◌>>◌, pure, gets, or_throw}
use sanmarino_crm.Database.{Database, Db}
use sanmarino_crm.Payments.Digest.{HashInput, intake_request, build_payment_number}
use sanmarino_crm.Payments.Idempotency.{CommandContext, Surroundings}
use sanmarino_crm.Payments.Normalize.{
  normalize_amount, normalize_external_source, normalize_external_event_id, normalize_optional_text,
}
use sanmarino_crm.Payments.Writes.{
  create_payment, create_outbox_records, create_audit_log_record, complete_record, run_command,
}
use sanmarino_crm.Status.{PaymentStatus, PaymentMethod, PaymentExternalSource}

-- `IntakeExternalPaymentFactInput`
pub record IntakeInput : Type 0 where
  pub order_id : Text
  pub amount : Text
  pub payment_method : PaymentMethod
  pub external_source : Text
  pub external_event_id : Text
  pub external_reference : Option Text

-- The payload after its checks.
pub record IntakeFact : Type 0 where
  pub order_id : Text
  pub amount : ℕ
  pub payment_method : PaymentMethod
  pub external_source : PaymentExternalSource
  pub external_event_id : Text
  pub external_reference : Option Text

abbrev pub intake_scope : Text
intake_scope = text "payments.external_fact.intake.v1"

abbrev pub intake_hash_input : IntakeFact → HashInput
intake_hash_input f =
    intake_request f.order_id f.amount f.payment_method f.external_source f.external_event_id
      f.external_reference

module _ (D : Database) (digest : HashInput → Text) where
  abbrev pub intaked_payment : Text → IntakeFact → Actor → CommandContext → ℕ → Payment
  intaked_payment payment_id fact actor context now = record {
    id = payment_id;
    payment_number = build_payment_number digest fact.order_id context.idempotency_key;
    order_id = fact.order_id;
    status = PaymentStatus.pending;
    external_source = fact.external_source;
    external_event_id = fact.external_event_id;
    payment_method = fact.payment_method;
    amount = fact.amount;
    refunded_amount = 0;
    received_at = none;
    intaked_at = now;
    confirmed_by = none;
    confirmed_at = none;
    rejected_at = none;
    external_reference = fact.external_reference;
    created_by = actor.user_id;
    is_deleted = Bool.false;
  }

  -- The transaction.
  unfoldable pub intake_transaction :
      IntakeFact → Actor → CommandContext → ℕ → Text → Action (Db D) Text
  intake_transaction fact actor context now record_id = do
    found ← gets (λ (db : Db D).
        D.orders.find_first (λ o. o.id == fact.order_id && not o.is_deleted) db.orders)
    or_throw found not_found_exception
    payment_id ← gets (λ (db : Db D). D.payments.next_id db.payments)
    create_payment D (intaked_payment payment_id fact actor context now)
    create_outbox_records D (
        external_fact_intaked payment_id fact.order_id fact.external_source fact.external_event_id
          now
        ∷ [])
    create_audit_log_record D digest intake now payment_id actor context
        (intake_payload fact.order_id fact.external_source fact.external_event_id fact.amount)
    complete_record D record_id (payment_reference payment_id)
    pure payment_id

  unfoldable pub check_intake : IntakeInput → Action (Db D) IntakeFact
  check_intake payload = do
    amount ← from_result (normalize_amount payload.amount)
    source ← from_result (normalize_external_source payload.external_source)
    event_id ← from_result (normalize_external_event_id payload.external_event_id)
    pure (record {
      order_id = payload.order_id;
      amount = amount;
      payment_method = payload.payment_method;
      external_source = source;
      external_event_id = event_id;
      external_reference = normalize_optional_text payload.external_reference;
    })

  unfoldable pub intake_external_payment_fact :
      IntakeInput → Actor → CommandContext → Surroundings D → Action (Db D) Payment
  unfolding run_command check_intake intake_transaction
  intake_external_payment_fact payload actor context around = do
    fact ← check_intake payload
    run_command D around intake_scope context.idempotency_key (digest (intake_hash_input fact))
        actor none (intake_transaction fact actor context around.performed_at)
