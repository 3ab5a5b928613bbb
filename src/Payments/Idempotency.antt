-- ===== src/Payments/Idempotency.antt =====
-- The idempotency records of payments.service.ts: `acquire_idempotency`, `mark_idempotency_failed`
-- and the completion that ends each transaction.
use sanmarino_crm.Base.{
  ℕ, ◌+◌, Bool, true, false, ◌&&◌, not, Option, none, some, Text, text_eq, ◌==◌, ltb, if◌then◌else◌,
}
use sanmarino_crm.Records.{
  IdempotencyRecord, IdempotencyStatus, idempotency_status_eq, ResponseBody, failure,
}
use sanmarino_crm.Errors.{
  Exception, not_found_exception, conflict_exception, bad_request_exception, forbidden_exception,
  unique_constraint_error, other_error, conflict, idempotency_key_reused_with_different_payload,
}
use sanmarino_crm.Action.{ok, err, Action}
use sanmarino_crm.Database.{Database, Db}

-- `PaymentCommandContext`
pub record CommandContext : Type 0 where
  pub idempotency_key : Text
  pub request_id : Option Text
  pub correlation_id : Option Text

-- What a call meets: the readings of the clock, and what other calls do to the idempotency records
-- between the two statements of `acquire_idempotency`, at the first try and at the second.
pub record Surroundings (D : Database) : Type 0 where
  pub first_now : ℕ
  pub first_race : D.idempotency_records.Store → D.idempotency_records.Store
  pub retry_now : ℕ
  pub retry_race : D.idempotency_records.Store → D.idempotency_records.Store
  pub performed_at : ℕ

pub record AcquiredIdempotencyRecord : Type 0 where
  pub record_id : Text
  pub replayed : Bool
  pub response_body : Option ResponseBody

-- `existingRecord.lockedUntil && existingRecord.lockedUntil > now`
abbrev pub is_locked : Option ℕ → ℕ → Bool
is_locked none now = false
is_locked (some until) now = ltb now until

-- `5 * 60 * 1000`
abbrev pub lock_duration : ℕ
lock_duration = 300_000

abbrev pub restart : ℕ → IdempotencyRecord → IdempotencyRecord
restart now r = record r {
  status = IdempotencyStatus.started;
  locked_until = some (now + lock_duration);
  response_status_code = none;
  response_body = none;
}

-- The data that the command's last write gives its record.
abbrev pub complete : ResponseBody → IdempotencyRecord → IdempotencyRecord
complete body r = record r {
  status = IdempotencyStatus.completed;
  response_status_code = some 200;
  response_body = some body;
  locked_until = none;
}

-- `resolve_error_status_code`
unfoldable pub resolve_error_status_code : Exception → ℕ
resolve_error_status_code not_found_exception = 404
resolve_error_status_code (conflict_exception c) = 409
resolve_error_status_code (bad_request_exception c) = 422
resolve_error_status_code (forbidden_exception c) = 500
resolve_error_status_code unique_constraint_error = 500
resolve_error_status_code other_error = 500

abbrev pub fail : Exception → IdempotencyRecord → IdempotencyRecord
fail e r = record r {
  status = IdempotencyStatus.failed;
  response_status_code = some (resolve_error_status_code e);
  response_body = some failure;
  locked_until = none;
}

module _ (D : Database) where
  abbrev pub find_record : Text → Text → D.idempotency_records.Store → Option IdempotencyRecord
  find_record scope key =
      D.idempotency_records.find_first (λ r. r.scope == scope && r.idempotency_key == key)

  abbrev pub update_record : Text → (IdempotencyRecord → IdempotencyRecord) → Db D → Db D
  update_record record_id f db = record db {
    idempotency_records = D.idempotency_records.update record_id f db.idempotency_records;
  }

  abbrev pub new_record : Text → Text → Text → ℕ → D.idempotency_records.Store → IdempotencyRecord
  new_record scope key request_hash now s = record {
    id = D.idempotency_records.next_id s;
    scope = scope;
    idempotency_key = key;
    request_hash = request_hash;
    status = IdempotencyStatus.started;
    response_status_code = none;
    response_body = none;
    locked_until = some (now + lock_duration);
  }

  -- What becomes of a record that is there already.
  unfoldable pub reacquire : IdempotencyRecord → Text → ℕ → Action (Db D) AcquiredIdempotencyRecord
  reacquire existing request_hash now db =
      if not (existing.request_hash == request_hash)
      then (err (conflict_exception idempotency_key_reused_with_different_payload), db)
      else if existing.status == IdempotencyStatus.completed
      then (
        ok (record {
          record_id = existing.id;
          replayed = true;
          response_body = existing.response_body;
        }),
        db,
      )
      else if existing.status == IdempotencyStatus.started && is_locked existing.locked_until now
      then (err (conflict_exception conflict), db)
      else (
        ok (record { record_id = existing.id; replayed = false; response_body = none }),
        update_record existing.id (restart now) db,
      )

  -- One try: `on_conflict` is what follows the error P2002 of the `create`.
  unfoldable pub try_acquire :
      (D.idempotency_records.Store → D.idempotency_records.Store)
      → Text
      → Text
      → Text
      → ℕ
      → Action (Db D) AcquiredIdempotencyRecord
      → Action (Db D) AcquiredIdempotencyRecord
  unfolding reacquire
  try_acquire race scope key request_hash now on_conflict db =
      elim (find_record scope key db.idempotency_records) [
        | some existing ↦ reacquire existing request_hash now db
        | none ↦
            let s = race db.idempotency_records in
            let r = new_record scope key request_hash now s in
            elim (D.idempotency_records.create r s) [
              | none ↦ on_conflict (record db { idempotency_records = s })
              | some t ↦ (
                ok (record { record_id = r.id; replayed = false; response_body = none }),
                record db { idempotency_records = t },
              )
            ]
      ]

  -- `acquire_idempotency`: the second try has `canRetryOnConflict` false.
  unfoldable pub acquire_idempotency :
      Surroundings D → Text → Text → Text → Action (Db D) AcquiredIdempotencyRecord
  unfolding try_acquire
  acquire_idempotency around scope key request_hash =
      try_acquire around.first_race scope key request_hash around.first_now (
        try_acquire around.retry_race scope key request_hash around.retry_now
          (λ db. (err unique_constraint_error, db)))

  -- `catch (error) { await this.mark_idempotency_failed(recordId, error); throw error; }`
  abbrev pub marking_failed : {A : Type 0} → Text → Action (Db D) A → Action (Db D) A
  marking_failed record_id m db =
      let (r, db') = m db in
      elim r [ ok a ↦ (ok a, db') | err e ↦ (err e, update_record record_id (fail e) db') ]
