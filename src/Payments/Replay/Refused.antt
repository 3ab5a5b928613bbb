-- ===== src/Payments/Replay/Refused.antt =====
-- The frame of the commands of payments.service.ts, for a key that is in use and for a transaction
-- that throws.
use mathlib.Core.Path.{subst}
use sanmarino_crm.Base.{
  ◌<◌, ℕ, arith, ◌≡◌, ◌≢◌, ◌⊎◌, inl, inr, refl, ◌∙◌, true, false, Option, none, some, Text, text_eq,
  first, ==-refl,
}
use sanmarino_crm.Action.{Action, ok, err, transaction}
use sanmarino_crm.Action.Ensures.{Ensures-elim, bind-ok, bind-err, transaction-err}
use sanmarino_crm.Database.{Database, Db}
use sanmarino_crm.Errors.{
  Exception, conflict_exception, conflict, idempotency_key_reused_with_different_payload,
  unique_constraint_error,
}
use sanmarino_crm.Records.{Actor, IdempotencyRecord, IdempotencyStatus, idempotency_status_eq}
use sanmarino_crm.Payments.Idempotency.{
  AcquiredIdempotencyRecord, Surroundings, acquire_idempotency, reacquire, try_acquire,
  marking_failed, update_record, fail, restart, is_locked,
}
use sanmarino_crm.Payments.Replay.{Owned, is_record, records, try_acquire-found}
use sanmarino_crm.Payments.Replay.Acquire.{acquire-Acquired, update_record-found}
use sanmarino_crm.Payments.Writes.{run_command}

module _ (D : Database) (scope key request_hash : Text) (around : Surroundings D) (actor : Actor)
    (fallback : Option Text) (body : Text → Action (Db D) Text) (db : Db D) where
  -- The answer to a key that another request has, or that a command holds at this time.
  abbrev InUse : IdempotencyRecord → Exception → Type 0
  InUse row e =
      ((row.request_hash ≢ request_hash)
        × (e ≡ conflict_exception idempotency_key_reused_with_different_payload))
      ⊎ ((row.request_hash ≡ request_hash)
          × (row.status ≡ IdempotencyStatus.started)
          × ((until : ℕ) × (row.locked_until ≡ some until) × (around.first_now < until))
          × (e ≡ conflict_exception conflict))

  reacquire-InUse :
      (row : IdempotencyRecord) (e : Exception)
      → InUse row e
      → reacquire D row request_hash around.first_now db ≡ (err e, db)
  unfolding reacquire idempotency_status_eq
  reacquire-InUse row e (inl (other, same)) = ground (arith, same, other)
  reacquire-InUse row e (inr (h, s, (until, l, early), same)) =
      let held : is_locked row.locked_until around.first_now ≡ true = ground (arith, l, early) in
      rw (h, ==-refl request_hash, s, held, same) refl

  -- A key that another request has used, or whose command is under way and not timed out, is refused
  -- with the conflict of its case, and nothing is written.
  pub run_command_refused :
      {row : IdempotencyRecord} (e : Exception)
      → first (is_record scope key) (records D db) ≡ some row
      → InUse row e
      → run_command D around scope key request_hash actor fallback body db ≡ (err e, db)
  unfolding run_command acquire_idempotency
  run_command_refused {row} e found used =
      bind-err (acquire_idempotency D around scope key request_hash) _ (
        try_acquire-found D scope key request_hash around.first_race around.first_now
          (try_acquire D around.retry_race scope key request_hash around.retry_now
            (λ t. (err unique_constraint_error, t)))
          db found
        ∙ reacquire-InUse row e used)

  marking_failed-err :
      {A : Type 0} (id : Text) (m : Action (Db D) A) {s t : Db D} {e : Exception}
      → m s ≡ (err e, t)
      → marking_failed D id m s ≡ (err e, update_record D id (fail e) t)
  marking_failed-err id m h = cc h

  reacquire-failed :
      (row : IdempotencyRecord) (now : ℕ) (t : Db D)
      → row.request_hash ≡ request_hash
      → row.status ≡ IdempotencyStatus.failed
      → reacquire D row request_hash now t ≡ (
        ok (record { record_id = row.id; replayed = false; response_body = none }),
        update_record D row.id (restart now) t,
      )
  unfolding reacquire idempotency_status_eq
  reacquire-failed row now t h f = rw (h, ==-refl request_hash, f) refl

  -- A record that is marked as failed is acquired again by the next request, which restarts it.
  acquire_failed :
      (again : Surroundings D) {record_id : Text} {s : Db D} (e : Exception)
      → Owned D scope key request_hash record_id s
      → let t = update_record D record_id (fail e) s in
        acquire_idempotency D again scope key request_hash t ≡ (
          ok (record { record_id = record_id; replayed = false; response_body = none }),
          update_record D record_id (restart again.first_now) t,
        )
  unfolding acquire_idempotency
  acquire_failed again {record_id} {s} e o =
      try_acquire-found D scope key request_hash again.first_race again.first_now
        (try_acquire D again.retry_race scope key request_hash again.retry_now
          (λ t. (err unique_constraint_error, t)))
        (update_record D record_id (fail e) s)
        (subst
          (λ id.
            first (is_record scope key) (records D (update_record D id (fail e) s))
            ≡ some (fail e o.row))
          o.named
          (update_record-found D scope key request_hash o.row (fail e) s (λ r. refl) o.found))
      ∙ subst
          (λ id.
            reacquire D (fail e o.row) request_hash again.first_now
              (update_record D record_id (fail e) s)
            ≡ (
              ok (record { record_id = id; replayed = false; response_body = none }),
              update_record D id (restart again.first_now) (update_record D record_id (fail e) s),
            ))
          o.named (reacquire-failed (fail e o.row) again.first_now _ o.hashed refl)

  -- A transaction that throws: the error is passed on, the record of the key is marked as failed
  -- with the error's status code, nothing else that the transaction has written stays, and the next
  -- request with the key runs its transaction again.
  pub run_command_failed :
      {a : AcquiredIdempotencyRecord} {s : Db D} {e : Exception}
      → acquire_idempotency D around scope key request_hash db ≡ (ok a, s)
      → a.replayed ≡ false
      → (body a.record_id s).0 ≡ err e
      → let t = update_record D a.record_id (fail e) s in
        (run_command D around scope key request_hash actor fallback body db ≡ (err e, t))
        × ((again : Surroundings D)
            → acquire_idempotency D again scope key request_hash t ≡ (
              ok (record { record_id = a.record_id; replayed = false; response_body = none }),
              update_record D a.record_id (restart again.first_now) t,
            ))
  unfolding run_command
  run_command_failed {a} {s} {e} acquired fresh thrown = (
    bind-ok (acquire_idempotency D around scope key request_hash) _ acquired
        ∙ rw fresh (
            bind-err (marking_failed D a.record_id (transaction (body a.record_id))) _ (
              marking_failed-err a.record_id (transaction (body a.record_id)) {s = s}
                (transaction-err (body a.record_id) thrown))),
    λ again.
        acquire_failed again e
          ((Ensures-elim (acquire-Acquired D scope key request_hash around db) acquired).0 fresh),
  )
