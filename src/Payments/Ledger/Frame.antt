-- ===== src/Payments/Ledger/Frame.antt =====
-- The frame of the payment commands of payments.service.ts: which books it can leave.
use mathlib.Core.Path.{subst}
use sanmarino_crm.Base.{◌≡◌, sym, arith, Option, Text}
use sanmarino_crm.Action.{◌>>=◌, transaction, Action, Result, ok, err}
use sanmarino_crm.Action.Ensures.{Ensures, Ensures_of_state}
use sanmarino_crm.Action.Leaves.{Leaves, Leaves-if, Leaves-transaction, Leaves-bind}
use sanmarino_crm.Database.{Database, Db}
use sanmarino_crm.Records.{Actor, ResponseBody}
use sanmarino_crm.Payments.Access.{get_payment_or_throw}
use sanmarino_crm.Payments.Idempotency.{
  Surroundings, acquire_idempotency, marking_failed, update_record, fail,
}
use sanmarino_crm.Payments.Ledger.{Sheet, sheet}
use sanmarino_crm.Payments.Writes.{run_command, resolve_replayed_payment}

module _ (D : Database) where
  pub acquire-sheet :
      (around : Surroundings D) (scope key request_hash : Text) (db : Db D)
      → sheet D (acquire_idempotency D around scope key request_hash db).1 ≡ sheet D db
  unfolding acquire_idempotency
  acquire-sheet around scope key request_hash db = ground arith

  pub get_payment_or_throw-state :
      (id : Text) (actor : Actor) (db : Db D) → (get_payment_or_throw D id actor db).1 ≡ db
  unfolding get_payment_or_throw
  get_payment_or_throw-state id actor db = ground arith

  pub resolve_replayed_payment-state :
      (body : Option ResponseBody) (actor : Actor) (fallback : Option Text) (db : Db D)
      → (resolve_replayed_payment D body actor fallback db).1 ≡ db
  unfolding resolve_replayed_payment
  resolve_replayed_payment-state body actor fallback db = ground arith

module _ (D : Database) (P : Sheet → Type 0) where
  abbrev OnSheet : Db D → Type 0
  OnSheet db = P (sheet D db)

  marking_failed-Leaves :
      {A : Type 0} (id : Text) (m : Action (Db D) A) {s : Db D}
      → Leaves s m OnSheet
      → Leaves s (marking_failed D id m) OnSheet
  marking_failed-Leaves {A} id m {s} k = record { at = go (m s) k.at }
    where
      go :
          (x : Result A × Db D)
          → OnSheet x.1
          → OnSheet
              (let (r, s') = x in
                elim r as (λ _. Result A × Db D) [
                  | ok a ↦ (ok a, s')
                  | err e ↦ (err e, update_record D id (fail e) s')
                ]).1
      go (ok a, s') h = h
      go (err e, s') h = h

  -- However a command ends, its books are those that it began with or those that its transaction
  -- has made of them.
  pub run_command-Leaves :
      (around : Surroundings D) (scope key request_hash : Text) (actor : Actor)
      (fallback : Option Text) (body : Text → Action (Db D) Text) (db : Db D)
      → P (sheet D db)
      → ((record_id : Text) (s : Db D)
          → sheet D s ≡ sheet D db
          → Ensures s (body record_id) (λ _ t. P (sheet D t)))
      → Leaves db (run_command D around scope key request_hash actor fallback body) OnSheet
  unfolding run_command
  run_command-Leaves around scope key request_hash actor fallback body db before h =
      Leaves-bind (acquire_idempotency D around scope key request_hash) _
        (λ _ s. sheet D s ≡ sheet D db)
        (record { at = subst P (sym (acquire-sheet D around scope key request_hash db)) before })
        (Ensures_of_state _ db (λ s. sheet D s ≡ sheet D db)
          (acquire-sheet D around scope key request_hash db))
        λ a s same.
          Leaves-if a.replayed
            (record {
              at =
                  subst OnSheet
                    (sym (resolve_replayed_payment-state D a.response_body actor fallback s))
                    (subst P (sym same) before);
            })
            (commit a.record_id s same (
              Leaves-transaction (body a.record_id) (subst P (sym same) before)
                (h a.record_id s same)))
    where
      commit :
          (record_id : Text) (s : Db D)
          → sheet D s ≡ sheet D db
          → Leaves s (transaction (body record_id)) OnSheet
          → Leaves s
              (marking_failed D record_id (transaction (body record_id)) >>= λ payment_id.
                get_payment_or_throw D payment_id actor)
              OnSheet
      commit record_id s same done =
          Leaves-bind (marking_failed D record_id (transaction (body record_id))) _ (λ _. OnSheet)
            (marking_failed-Leaves record_id _ done)
            (Ensures_of_state _ s OnSheet (marking_failed-Leaves record_id _ done).at)
            λ payment_id t p. record {
              at = subst OnSheet (sym (get_payment_or_throw-state D payment_id actor t)) p;
            }
