-- ===== src/Tests/Replay.antt =====
-- Repeated and failed payment calls on the database in memory.
use sanmarino_crm.Base.{
  arith, first, any, change, text_eq, ◌≡◌, refl, Bool, none, some, [], ◌∷◌, Text, text, inr,
}
use sanmarino_crm.Action.{◌>>=◌, ok, err, Action}
use sanmarino_crm.Database.{Db, memory_database}
use sanmarino_crm.Records.{Payment, IdempotencyRecord, IdempotencyStatus, idempotency_status_eq}
use sanmarino_crm.Payments.Calls.{answer}
use sanmarino_crm.Payments.Replay.Calls.{retried, answer_twice}
use sanmarino_crm.Payments.Replay.Refused.{run_command_refused, run_command_failed}
use sanmarino_crm.Payments.Normalize.{
  trim, normalize_amount, normalize_external_source, normalize_external_event_id,
}
use sanmarino_crm.Payments.Writes.{
  create_payment, create_outbox_records, create_audit_log_record, complete_record, run_command,
}
use sanmarino_crm.Payments.Digest.{build_payment_number}
use sanmarino_crm.Payments.Replay.Once.{IsTrimmed}
use sanmarino_crm.Table.Memory.{add}
use sanmarino_crm.Errors.{conflict_exception, conflict, not_found_exception}
use sanmarino_crm.Payments.Confirm.{confirm_transaction}
use sanmarino_crm.Payments.Idempotency.{
  AcquiredIdempotencyRecord, Surroundings, acquire_idempotency, update_record, restart, fail,
}
use sanmarino_crm.Payments.Replay.{is_record, records}
use sanmarino_crm.Status.{
  payment_external_source_eq, PaymentStatus, PaymentExternalSource, PaymentMethod,
}
use sanmarino_crm.Tests.Payments.{digest, start, around, clerk, context, first_payment, intake_call}

-- The database after the intake, and its answer.
abbrev intaken : Db memory_database
intaken = (answer memory_database digest intake_call start).1

abbrev pub payment : Payment
payment = record {
  id = first_payment;
  payment_number = build_payment_number digest (text "o1") (text "k1");
  order_id = text "o1";
  status = PaymentStatus.pending;
  external_source = PaymentExternalSource.bank;
  external_event_id = text "e1";
  payment_method = PaymentMethod.card;
  amount = 10_050;
  refunded_amount = 0;
  received_at = none;
  intaked_at = 1_000;
  confirmed_by = none;
  confirmed_at = none;
  rejected_at = none;
  external_reference = none;
  created_by = text "u1";
  is_deleted = Bool.false;
}

answered : answer memory_database digest intake_call start ≡ (ok payment, intaken)
unfolding answer text_eq ◌>>=◌ first normalize_amount normalize_external_source
    normalize_external_event_id add any create_payment create_outbox_records create_audit_log_record
    complete_record change payment_external_source_eq
answered = refl

trimmed : IsTrimmed first_payment
unfolding trim
trimmed = refl

answer_twice_example :
    answer memory_database digest
      (retried memory_database digest intake_call (around 9_000))
      intaken
    ≡ (ok payment, intaken)
answer_twice_example =
    answer_twice memory_database digest intake_call start answered trimmed (around 9_000)

-- The record of a confirmation that is under way until 5_000.
abbrev row : IdempotencyRecord
row = record {
  id = text "i1";
  scope = text "s";
  idempotency_key = text "k";
  request_hash = text "h";
  status = IdempotencyStatus.started;
  response_status_code = none;
  response_body = none;
  locked_until = some 5_000;
}

abbrev held : Db memory_database
held = record start { idempotency_records = row ∷ [] }

abbrev body : Text → Action (Db memory_database) Text
body = confirm_transaction memory_database digest first_payment clerk (context (text "k")) 2_000

held_row : first (is_record (text "s") (text "k")) (records memory_database held) ≡ some row
unfolding first text_eq
held_row = refl

run_command_refused_example :
    run_command memory_database (around 2_000) (text "s") (text "k") (text "h") clerk none body held
    ≡ (err (conflict_exception conflict), held)
run_command_refused_example =
    run_command_refused memory_database (text "s") (text "k") (text "h") (around 2_000) clerk none
      body held (conflict_exception conflict) held_row
      (inr (refl, refl, (5_000, refl, omega arith), refl))

abbrev acquired : AcquiredIdempotencyRecord × Db memory_database
acquired = (
  record { record_id = text "i1"; replayed = Bool.false; response_body = none },
  record start { idempotency_records = restart 9_000 row ∷ [] },
)

acquired_late :
    acquire_idempotency memory_database (around 9_000) (text "s") (text "k") (text "h") held
    ≡ (ok acquired.0, acquired.1)
unfolding acquire_idempotency first text_eq change idempotency_status_eq
acquired_late = refl

not_found : (body acquired.0.record_id acquired.1).0 ≡ err not_found_exception
unfolding confirm_transaction first ◌>>=◌
not_found = refl

run_command_failed_example :
    (run_command memory_database
        (around 9_000)
        (text "s")
        (text "k")
        (text "h")
        clerk
        none
        body
        held
      ≡ (
        err not_found_exception,
        update_record memory_database (text "i1") (fail not_found_exception) acquired.1,
      ))
    × ((again : Surroundings memory_database)
        → acquire_idempotency memory_database again
            (text "s")
            (text "k")
            (text "h")
            (update_record memory_database (text "i1") (fail not_found_exception) acquired.1)
          ≡ (
            ok (record { record_id = text "i1"; replayed = Bool.false; response_body = none }),
            update_record memory_database
                (text "i1")
                (restart again.first_now)
                (update_record memory_database (text "i1") (fail not_found_exception) acquired.1),
          ))
run_command_failed_example =
    run_command_failed memory_database (text "s") (text "k") (text "h") (around 9_000) clerk none
      body held acquired_late refl not_found
