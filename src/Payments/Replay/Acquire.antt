-- ===== src/Payments/Replay/Acquire.antt =====
-- `acquire_idempotency` of payments.service.ts: the record of a key is there afterwards.
use sanmarino_crm.Payments.Replay.{
  is_record, records, Owned, Done, Acquired, find_record-found, try_acquire-found,
}
use mathlib.Core.Path.{subst}
use sanmarino_crm.Base.{
  Option-cases, ap, ℕ, first-change, ◌≡◌, refl, sym, ◌∙◌, false, Option, none, some, Text, text_eq,
  ◌==◌, first, arith, ==-refl, inl, inr,
}
use sanmarino_crm.Action.{Result, Action, ok, err}
use sanmarino_crm.Action.Ensures.{Returns, Ensures}
use sanmarino_crm.Errors.{unique_constraint_error}
use sanmarino_crm.Database.{Database, Db}
use sanmarino_crm.Records.{IdempotencyRecord, IdempotencyStatus, idempotency_status_eq}
use sanmarino_crm.Payments.Idempotency.{
  AcquiredIdempotencyRecord, Surroundings, acquire_idempotency, reacquire, try_acquire,
  update_record, restart, new_record,
}

module _ (D : Database) (scope key request_hash : Text) where
  abbrev Gained : AcquiredIdempotencyRecord → Db D → Type 0
  Gained = Acquired D scope key request_hash

  pub update_record-found :
      (existing : IdempotencyRecord) (f : IdempotencyRecord → IdempotencyRecord) (db : Db D)
      → ((r : IdempotencyRecord) → is_record scope key (f r) ≡ is_record scope key r)
      → first (is_record scope key) (records D db) ≡ some existing
      → first (is_record scope key) (records D (update_record D existing.id f db))
        ≡ some (f existing)
  update_record-found existing f db blind found =
      ap (first (is_record scope key))
        (D.idempotency_records.update_lem existing.id f db.idempotency_records)
      ∙ first-change (is_record scope key) (λ r. r.id == existing.id) f (records D db) blind found
          (==-refl existing.id)

  reacquire-Acquired :
      (existing : IdempotencyRecord) (now : ℕ) (db : Db D)
      → first (is_record scope key) (records D db) ≡ some existing
      → Ensures db (reacquire D existing request_hash now) Gained
  unfolding reacquire
  reacquire-Acquired existing now db found = record { at = ground (arith, own, done) }
    where
      own :
          existing.request_hash ≡ request_hash
          → Owned D scope key request_hash existing.id
              (update_record D existing.id (restart now) db)
      own h = record {
        row = restart now existing;
        found = update_record-found existing (restart now) db (λ r. refl) found;
        named = refl;
        hashed = h;
      }

      done :
          existing.request_hash ≡ request_hash
          → existing.status ≡ IdempotencyStatus.completed
          → Done D scope key request_hash existing.response_body db
      done h c = record { row = existing; found = found; hashed = h; completed = c; answer = refl }

  module _ (race : D.idempotency_records.Store → D.idempotency_records.Store) (now : ℕ)
      (on_conflict : Action (Db D) AcquiredIdempotencyRecord) (db : Db D) where
    -- What the `create` of a try ends in.
    inserted :
        IdempotencyRecord
        → D.idempotency_records.Store
        → Option D.idempotency_records.Store
        → Result AcquiredIdempotencyRecord × Db D
    inserted r s none = on_conflict (record db { idempotency_records = s })
    inserted r s (some t) = (
      ok (record { record_id = r.id; replayed = false; response_body = none }),
      record db { idempotency_records = t },
    )

    inserted-Acquired :
        (s : D.idempotency_records.Store)
        → Ensures (record db { idempotency_records = s }) on_conflict Gained
        → let r = new_record D scope key request_hash now s in
          (o : Option D.idempotency_records.Store)
          → D.idempotency_records.create r s ≡ o
          → Returns Gained (inserted r s o)
    unfolding inserted first
    inserted-Acquired s again none e = again.at
    inserted-Acquired s again (some t) e = (
      λ _. record {
        row = new_record D scope key request_hash now s;
        found =
            let r = new_record D scope key request_hash now s in
            ap (first (is_record scope key)) (D.idempotency_records.create-rows r s e)
            ∙ rw (==-refl scope, ==-refl key) refl;
        named = refl;
        hashed = refl;
      },
      λ no. absurd (cc),
    )

    try_acquire-missing :
        first (is_record scope key) (records D db) ≡ none
        → let s = race db.idempotency_records in
          let r = new_record D scope key request_hash now s in
          try_acquire D race scope key request_hash now on_conflict db
          ≡ inserted r s (D.idempotency_records.create r s)
    unfolding try_acquire inserted
    try_acquire-missing e =
        ground (arith, find_record-found D scope key request_hash db.idempotency_records e)

    try_acquire-Acquired :
        ((s : D.idempotency_records.Store)
          → Ensures (record db { idempotency_records = s }) on_conflict Gained)
        → Ensures db (try_acquire D race scope key request_hash now on_conflict) Gained
    try_acquire-Acquired again = elim (Option-cases (first (is_record scope key) (records D db))) [
      | inr (existing, e) ↦ record {
        at =
            subst (Returns Gained)
              (sym (try_acquire-found D scope key request_hash race now on_conflict db e))
              (reacquire-Acquired existing now db e).at;
      }
      | inl e ↦ record {
        at =
            let s = race db.idempotency_records in
            subst (Returns Gained) (sym (try_acquire-missing e))
              (inserted-Acquired s (again s) _ refl);
      }
    ]

  -- Whatever other calls do to the records meanwhile, the record of the key is there afterwards.
  pub acquire-Acquired :
      (around : Surroundings D) (db : Db D)
      → Ensures db (acquire_idempotency D around scope key request_hash) Gained
  unfolding acquire_idempotency
  acquire-Acquired around db =
      try_acquire-Acquired around.first_race around.first_now
        (try_acquire D around.retry_race scope key request_hash around.retry_now
          (λ t. (err unique_constraint_error, t)))
        db
        λ s.
          try_acquire-Acquired around.retry_race around.retry_now
            (λ t. (err unique_constraint_error, t)) (record db { idempotency_records = s })
            λ t. record { at = tt }
