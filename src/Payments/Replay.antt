-- ===== src/Payments/Replay.antt =====
-- The idempotency records of payments.service.ts across calls: what a command leaves for the next
-- call with its key.
pub mod Steps
pub mod Acquire
pub mod Once
pub mod Transactions
pub mod Calls
pub mod Refused
use mathlib.Core.Path.{subst}
use sanmarino_crm.Base.{
  Option-cases, ap, ℕ, first-change, ◌≡◌, refl, sym, ◌∙◌, Bool, true, false, ◌&&◌, not, Option,
  none, some, List, Text, text_eq, ◌==◌, first, change, arith, ==-refl, Bool-cases, inl, inr,
}
use sanmarino_crm.Action.{Result, Action, ok, err, ◌>>=◌, transaction}
use sanmarino_crm.Action.Ensures.{
  Returns, Ensures, Ensures_mono, Ensures_of_run, Ensures_of_state, Ensures-bind,
  Ensures-transaction,
}
use sanmarino_crm.Errors.{unique_constraint_error}
use sanmarino_crm.Database.{Database, Db}
use sanmarino_crm.Records.{
  Payment, Actor, IdempotencyRecord, IdempotencyStatus, idempotency_status_eq, ResponseBody,
  payment_reference, refund_reference, failure,
}
use sanmarino_crm.Payments.Access.{get_payment_or_throw}
use sanmarino_crm.Payments.Idempotency.{
  AcquiredIdempotencyRecord, Surroundings, acquire_idempotency, reacquire, try_acquire,
  marking_failed, complete, find_record, update_record, restart, new_record,
}

-- The query of a record by its scope and key.
abbrev pub is_record : Text → Text → IdempotencyRecord → Bool
is_record scope key r = r.scope == scope && r.idempotency_key == key

module _ (D : Database) where
  abbrev pub records : Db D → List IdempotencyRecord
  records db = D.idempotency_records.rows db.idempotency_records

  module _ (scope key request_hash : Text) where
    -- The record of the key is there, with this hash and this identifier.
    pub record Owned (record_id : Text) (db : Db D) : Type 0 where
      pub row : IdempotencyRecord
      pub found : first (is_record scope key) (records db) ≡ some row
      pub named : row.id ≡ record_id
      pub hashed : row.request_hash ≡ request_hash

    -- The record of the key says that the command is completed.
    pub record Done (body : Option ResponseBody) (db : Db D) : Type 0 where
      pub row : IdempotencyRecord
      pub found : first (is_record scope key) (records db) ≡ some row
      pub hashed : row.request_hash ≡ request_hash
      pub completed : row.status ≡ IdempotencyStatus.completed
      pub answer : row.response_body ≡ body

    -- What `acquire_idempotency` leaves.
    abbrev pub Acquired : AcquiredIdempotencyRecord → Db D → Type 0
    Acquired a db =
        (a.replayed ≡ false → Owned a.record_id db) × (a.replayed ≡ true → Done a.response_body db)

    pub find_record-found :
        (s : D.idempotency_records.Store) {o : Option IdempotencyRecord}
        → first (is_record scope key) (D.idempotency_records.rows s) ≡ o
        → find_record D scope key s ≡ o
    find_record-found s e = D.idempotency_records.find_first_lem (is_record scope key) s ∙ e

    module _ (race : D.idempotency_records.Store → D.idempotency_records.Store) (now : ℕ)
        (on_conflict : Action (Db D) AcquiredIdempotencyRecord) (db : Db D) where
      -- A try that finds a record of the key.
      pub try_acquire-found :
          {existing : IdempotencyRecord}
          → first (is_record scope key) (records db) ≡ some existing
          → try_acquire D race scope key request_hash now on_conflict db
            ≡ reacquire D existing request_hash now db
      unfolding try_acquire
      try_acquire-found e = cc (find_record-found db.idempotency_records e)

    reacquire-completed :
        (existing : IdempotencyRecord) (now : ℕ) (db : Db D)
        → existing.request_hash ≡ request_hash
        → existing.status ≡ IdempotencyStatus.completed
        → reacquire D existing request_hash now db ≡ (
          ok (record {
            record_id = existing.id;
            replayed = true;
            response_body = existing.response_body;
          }),
          db,
        )
    unfolding reacquire
    reacquire-completed existing now db h c = ground (arith)

    -- A completed record is replayed, and nothing is written.
    pub acquire-Done :
        (around : Surroundings D) {body : Option ResponseBody} {db : Db D} (d : Done body db)
        → acquire_idempotency D around scope key request_hash db
          ≡ (ok (record { record_id = d.row.id; replayed = true; response_body = body }), db)
    unfolding acquire_idempotency
    acquire-Done around {body} {db} d =
        try_acquire-found around.first_race around.first_now
          (try_acquire D around.retry_race scope key request_hash around.retry_now
            (λ t. (err unique_constraint_error, t)))
          db d.found
        ∙ (reacquire-completed d.row around.first_now db d.hashed d.completed
            ∙ ap
                (λ b.
                  (ok (record { record_id = d.row.id; replayed = true; response_body = b }), db))
                d.answer)
