-- ===== src/Payments/Replay/Once.antt =====
-- The frame of the commands of payments.service.ts: a command that has returned is not run again.
use mathlib.Core.Path.{subst}
use sanmarino_crm.Base.{
  ◌≡◌, refl, sym, ap, ◌∙◌, Bool, true, false, ◌&&◌, Option, none, some, Text, text_eq, ◌==◌, change,
  first, arith, first-change, ==-refl, if◌then◌else◌, first-test,
}
use sanmarino_crm.Action.{Result, Action, ok, err, ◌>>=◌, transaction}
use sanmarino_crm.Action.Ensures.{
  bind-ok, Returns, Ensures, Ensures_of_run, Ensures-bind, Ensures-transaction,
}
use sanmarino_crm.Database.{Database, Db}
use sanmarino_crm.Records.{
  Payment, Actor, ResponseBody, payment_reference, refund_reference, fulfillment_reference,
  return_request_reference, failure, IdempotencyRecord,
}
use sanmarino_crm.Payments.Access.{
  get_payment_or_throw, get_by_id, in_scope, resolve_payment_read_scope,
}
use sanmarino_crm.Errors.{not_found_exception}
use sanmarino_crm.Payments.Ledger.Frame.{get_payment_or_throw-state, resolve_replayed_payment-state}
use sanmarino_crm.Payments.Idempotency.{
  AcquiredIdempotencyRecord, Surroundings, acquire_idempotency, marking_failed, complete,
  update_record, fail,
}
use sanmarino_crm.Payments.Normalize.{trim, non_empty}
use sanmarino_crm.Payments.Replay.{is_record, records, Owned, Done, Acquired, acquire-Done}
use sanmarino_crm.Payments.Replay.Acquire.{acquire-Acquired}
use sanmarino_crm.Payments.Writes.{
  resolve_replayed_payment, resolve_payment_id_from_response_body, run_command,
}

-- The payment that a response names.
abbrev pub Names : ResponseBody → Text → Type 0
Names (payment_reference p) id = p ≡ id
Names (refund_reference p r) id = p ≡ id
Names (fulfillment_reference f) id = ⊥
Names (return_request_reference r) id = ⊥
Names failure id = ⊥

-- An identifier that reads back as itself: the white space at its ends is dropped.
abbrev pub IsTrimmed : Text → Type 0
IsTrimmed id = non_empty (trim id) ≡ some id

Names-resolve :
    (body : ResponseBody) (id : Text)
    → Names body id
    → IsTrimmed id
    → resolve_payment_id_from_response_body (some body) ≡ some id
unfolding resolve_payment_id_from_response_body
Names-resolve (payment_reference p) id n t = subst IsTrimmed (sym n) t ∙ ap some n
Names-resolve (refund_reference p r) id n t = subst IsTrimmed (sym n) t ∙ ap some n
Names-resolve (fulfillment_reference f) id n t = absurd n
Names-resolve (return_request_reference r) id n t = absurd n
Names-resolve failure id n t = absurd n

module _ (D : Database) where
  -- The last write of a transaction: its record is completed with a response that names the answer.
  pub record Completed (record_id : Text) (db : Db D) (id : Text) (db' : Db D) : Type 0 where
    pub body : ResponseBody
    pub names : Names body id
    pub kept :
        records D db'
        ≡ change (λ (r : IdempotencyRecord). r.id == record_id) (complete body) (records D db)

  Ensures-marking_failed :
      {A : Type 0} {s : Db D} {Q : A → Db D → Type 0} (id : Text) {m : Action (Db D) A}
      → Ensures s m Q
      → Ensures s (marking_failed D id m) Q
  Ensures-marking_failed {A} {s} {Q} id {m} h = record { at = go (m s) h.at }
    where
      go :
          (x : Result A × Db D)
          → Returns Q x
          → Returns Q (
              let (r, t) = x in
              elim r as (λ _. Result A × Db D) [
                | ok a ↦ (ok a, t)
                | err e ↦ (err e, update_record D id (fail e) t)
              ])
      go (ok a, t) h = h
      go (err e, t) h = tt

  get_by_id-id :
      (id : Text) (scope : Option Text) (db : Db D) {p : Payment}
      → get_by_id D id scope db ≡ some p
      → p.id ≡ id
  unfolding get_by_id
  get_by_id-id id scope db {p} e = go _ refl e
    where
      test : Payment → Bool
      test q = q.id == id && in_scope D scope q db

      tested : (q : Payment) → test q ≡ true → q.id ≡ id
      tested q h = ground arith

      go :
          (o : Option Payment)
          → D.payments.find_first test db.payments ≡ o
          → elim o as (λ _. Option Payment) [
            | none ↦ none
            | some q ↦ if q.is_deleted then none else some q
          ]
            ≡ some p
          → p.id ≡ id
      go none f h = absurd (cc)
      go (some q) f h =
          let found = tested q (first-test test _ (sym (D.payments.find_first_lem test _) ∙ f)) in
          ground (arith, found)

  get_payment_or_throw-run :
      (id : Text) (actor : Actor) (db : Db D) {p : Payment} {t : Db D}
      → get_payment_or_throw D id actor db ≡ (ok p, t)
      → (t ≡ db) × (p.id ≡ id)
  unfolding get_payment_or_throw
  get_payment_or_throw-run id actor db {p} {t} e = (
    sym (ap (λ x. x.1) e) ∙ get_payment_or_throw-state D id actor db,
    go (resolve_payment_read_scope actor none) e,
  )
    where
      go :
          (r : Result (Option Text))
          → elim r as (λ _. Result Payment × Db D) [
            | err x ↦ (err x, db)
            | ok scope ↦ elim (get_by_id D id scope db) as (λ _. Result Payment × Db D) [
              | none ↦ (err not_found_exception, db)
              | some q ↦ (ok q, db)
            ]
          ]
            ≡ (ok p, t)
          → p.id ≡ id
      go (err x) h = absurd (cc)
      go (ok scope) h = pick (get_by_id D id scope db) refl h
        where
          pick :
              (o : Option Payment)
              → get_by_id D id scope db ≡ o
              → elim o as (λ _. Result Payment × Db D) [
                | none ↦ (err not_found_exception, db)
                | some q ↦ (ok q, db)
              ]
                ≡ (ok p, t)
              → p.id ≡ id
          pick none f h = absurd (cc)
          pick (some q) f h = get_by_id-id id scope db {p = p} (cc (f, h))

  module _ (scope key request_hash : Text) (actor : Actor) (fallback : Option Text) where
    run_command-Done :
        (around : Surroundings D) {response : Option ResponseBody}
        (body : Text → Action (Db D) Text) {db : Db D}
        → Done D scope key request_hash response db
        → run_command D around scope key request_hash actor fallback body db
          ≡ resolve_replayed_payment D response actor fallback db
    unfolding run_command
    run_command-Done around body d =
        bind-ok (acquire_idempotency D around scope key request_hash) _
          (acquire-Done D scope key request_hash around d)

    -- What a command that has returned leaves for the next call with its key.
    abbrev Replays : Payment → Db D → Type 0
    Replays p t =
        IsTrimmed p.id
        → (around : Surroundings D) (body : Text → Action (Db D) Text)
        → run_command D around scope key request_hash actor fallback body t ≡ (ok p, t)

    resolved :
        {response : Option ResponseBody} {db : Db D}
        → Done D scope key request_hash response db
        → Ensures db (resolve_replayed_payment D response actor fallback) Replays
    resolved {response} {db} d = Ensures_of_run _ db Replays λ p t e _ around body.
        let same =
          sym (ap (λ x. x.1) e) ∙ resolve_replayed_payment-state D response actor fallback db in
        subst (λ x. run_command D around scope key request_hash actor fallback body x ≡ (ok p, x))
          (sym same) (run_command-Done around body d ∙ (e ∙ ap (λ x. (ok p, x)) same))

    resolve-some :
        (body : ResponseBody) (id : Text) (db : Db D)
        → resolve_payment_id_from_response_body (some body) ≡ some id
        → resolve_replayed_payment D (some body) actor fallback db
          ≡ get_payment_or_throw D id actor db
    unfolding resolve_replayed_payment
    resolve-some body id db e = cc e

    ran :
        (record_id : Text) (body : Text → Action (Db D) Text) (s : Db D)
        → Ensures s (body record_id) (Completed record_id s)
        → Owned D scope key request_hash record_id s
        → Ensures s
            (marking_failed D record_id (transaction (body record_id)) >>= λ payment_id.
              get_payment_or_throw D payment_id actor)
            Replays
    ran record_id body s completes o =
        Ensures-bind (Ensures-marking_failed record_id (Ensures-transaction completes)) λ id t c.
          Ensures_of_run _ t Replays λ p u e trimmed around again.
            let (same, answered) = get_payment_or_throw-run id actor t e in
            let named = Names-resolve c.body id c.names (subst IsTrimmed answered trimmed) in
            let seen : Done D scope key request_hash (some c.body) t = done id t c in
            subst
              (λ x. run_command D around scope key request_hash actor fallback again x ≡ (ok p, x))
              (sym same)
              (run_command-Done around again seen
                ∙ (resolve-some c.body id t named ∙ (e ∙ ap (λ x. (ok p, x)) same)))
      where
        done :
            (id : Text) (t : Db D) (c : Completed record_id s id t)
            → Done D scope key request_hash (some c.body) t
        done id t c = record {
          row = complete c.body o.row;
          found =
              ap (first (is_record scope key)) c.kept
              ∙ first-change (is_record scope key) (λ r. r.id == record_id) (complete c.body)
                  (records D s) (λ r. refl) o.found
                  (ap (λ i. i == record_id) o.named ∙ ==-refl record_id);
          hashed = o.hashed;
          completed = refl;
          answer = refl;
        }

    -- A command that has returned a payment answers it again, whatever its body, and writes nothing.
    pub run_command_twice :
        (around : Surroundings D) (body : Text → Action (Db D) Text) (db : Db D)
        → ((record_id : Text) (s : Db D) → Ensures s (body record_id) (Completed record_id s))
        → Ensures db (run_command D around scope key request_hash actor fallback body) Replays
    unfolding run_command
    run_command_twice around body db completes =
        Ensures-bind (acquire-Acquired D scope key request_hash around db)
          λ a s q. branch a s q a.replayed refl
      where
        branch :
            (a : AcquiredIdempotencyRecord) (s : Db D)
            → Acquired D scope key request_hash a s
            → (b : Bool) → a.replayed ≡ b
            → Ensures s
                (if b
                  then resolve_replayed_payment D a.response_body actor fallback
                  else (marking_failed D a.record_id (transaction (body a.record_id))
                      >>= λ payment_id. get_payment_or_throw D payment_id actor))
                Replays
        branch a s q true e = resolved (q.1 e)
        branch a s q false e = ran a.record_id body s (completes a.record_id s) (q.0 e)
