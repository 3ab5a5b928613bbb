-- ===== src/Orders/Fulfillments/Covered.antt =====
-- `confirmExecution` of fulfillments.service.ts keeps the reservations covered, however it ends.
use sanmarino_crm.Orders.Fulfillments.SameStock.{
  SameStock, same-Covered, mark_completed-SameStock, read_order_shipment_progress-SameStock,
  apply_recommended_status-SameStock, create_execution_audit-SameStock,
}
use sanmarino_crm.Base.{
  ℕ, ◌≡◌, Bool, true, false, ltb, if◌then◌else◌, Option, none, List, map, Text, All-of_Mem, All-Mem,
  Mem, arith,
}
use sanmarino_crm.Records.{Actor, Reservation}
use sanmarino_crm.Action.{Action, Result, ok, err, transaction, ◌>>=◌, pure}
use sanmarino_crm.Action.Ensures.{
  Ensures, Ensures-pure, Ensures-bind, Ensures-gets, Ensures-or_throw, Ensures-throw_if,
  Ensures-from_result, Ensures_mono, Ensures_of_state,
}
use sanmarino_crm.Action.Leaves.{
  Leaves, Leaves-if, Leaves-transaction, Leaves-bind, Leaves-from_result,
}
use sanmarino_crm.Database.{Database, Db}
use sanmarino_crm.Orders.Issue.{IssueItem, IssueLine, issue_lines}
use sanmarino_crm.Orders.Fulfillments.{items_of_fulfillment, get_fulfillment}
use sanmarino_crm.Orders.Fulfillments.Confirm.{
  confirm_execution_transaction, execute_under, acquire_confirm_execution_idempotency,
  confirm_execution,
}
use sanmarino_crm.Orders.Fulfillments.Stock.{
  issue_item, issuable_reservations, issues_of, issue_items_of, create_inventory_issue_side_effects,
  count_issues,
}
use sanmarino_crm.Orders.Fulfillments.Ledger.{
  Covered, IsWithin, Issued, create_issues-Issued, issued-le-left, movement_rows, reservation_rows,
}
use sanmarino_crm.Payments.Digest.{HashInput, confirm_execution_request}
use sanmarino_crm.Payments.Idempotency.{
  CommandContext, Surroundings, acquire_idempotency, marking_failed, update_record, fail,
}
use sanmarino_crm.Payments.Writes.{complete_record}
use sanmarino_crm.Orders.Read.{resolve_order_read_scope}

module _ (D : Database) where
  Issued-Covered :
      (o f : Text) (items : List IssueItem) (db t : Db D) {lines : List IssueLine}
      → Covered D db
      → issue_lines
          (issuable_reservations D o items db)
          (issues_of D (issuable_reservations D o items db) db)
          items
        ≡ ok lines
      → Issued D db lines t
      → Covered D t
  Issued-Covered o f items db t {lines} h e (same, sums) = record {
    ids = rw same h.ids;
    within = rw same (All-of_Mem (IsWithin (movement_rows D t)) (reservation_rows D db) within_one);
  }
    where
      within_one :
          (r : Reservation) → Mem r (reservation_rows D db) → IsWithin (movement_rows D t) r
      within_one r m =
          let a = issued-le-left D o items db r e h.ids m in
          let b = All-Mem (IsWithin (movement_rows D db)) (reservation_rows D db) h.within m in
          omega (arith, a, b, sums r.id)

  -- Issuing the items of a fulfillment keeps every reservation within its quantity.
  issue_items_of-Covered :
      (fulfillment_id order_id user_id : Text) (now : ℕ) (db : Db D)
      → Covered D db
      → Ensures db (issue_items_of D fulfillment_id order_id user_id now) (λ _ t. Covered D t)
  unfolding issue_items_of
  issue_items_of-Covered f o u now db h = Ensures-gets _ _ (
      Ensures-throw_if _ _ _ λ some_items. Ensures-gets _ _ (
        Ensures-gets _ _ (
          Ensures-from_result _ _ λ lines e.
            Ensures-bind (create_issues-Issued D f o u now lines db) λ _ t done. Ensures-pure _ (
              Issued-Covered o f (map (issue_item D db) (items_of_fulfillment D f db)) db t h e
                done))))

  pub create_inventory_issue_side_effects-Covered :
      (fulfillment_id order_id user_id : Text) (now : ℕ) (db : Db D)
      → Covered D db
      → Ensures db
          (create_inventory_issue_side_effects D fulfillment_id order_id user_id now)
          (λ _ t. Covered D t)
  unfolding create_inventory_issue_side_effects
  create_inventory_issue_side_effects-Covered f o u now db h =
      Ensures-gets _ _ (branch (ltb 0 (count_issues D f db)))
    where
      branch :
          (b : Bool)
          → Ensures db (if b then pure 0 else issue_items_of D f o u now) (λ _ t. Covered D t)
      branch true = Ensures-pure 0 h
      branch false = issue_items_of-Covered f o u now db h

  confirm_execution_transaction-Covered :
      (digest : HashInput → Text) (id : Text) (scope : Option Text) (actor : Actor)
      (context : CommandContext) (now : ℕ) (db : Db D)
      → Covered D db
      → Ensures db
          (confirm_execution_transaction D digest id scope actor context now)
          (λ _ t. Covered D t)
  unfolding confirm_execution_transaction
  confirm_execution_transaction-Covered digest id scope actor context now db h = Ensures-gets _ _ (
      Ensures-or_throw _ _ _ λ f found. Ensures-gets _ _ (
        Ensures-or_throw _ _ _ λ o found_order. Ensures-throw_if _ _ _ λ open_status.
          Ensures-bind (mark_completed-SameStock D f _ db) λ _ db1 s1.
            Ensures-bind
              (create_inventory_issue_side_effects-Covered f.id f.order_id actor.user_id now db1
                (same-Covered D db db1 s1 h))
              λ n db2 h2.
                Ensures-bind (read_order_shipment_progress-SameStock D f.order_id db2)
                  λ progress db3 s3.
                    Ensures-bind (apply_recommended_status-SameStock D o _ _ db3) λ shipment db4 s4.
                      Ensures_mono
                        (create_execution_audit-SameStock D digest f shipment _ n actor context db4)
                        λ _ t s5.
                          same-Covered D db4 t s5
                            (same-Covered D db3 db4 s4 (same-Covered D db2 db3 s3 h2))))

  -- A transaction that may be followed by an update of an idempotency record.
  marking_failed-Covered :
      {A : Type 0} (id : Text) (m : Action (Db D) A) {s : Db D}
      → Leaves s m (Covered D)
      → Leaves s (marking_failed D id m) (Covered D)
  marking_failed-Covered {A} id m {s} k = record { at = go (m s) k.at }
    where
      go :
          (x : Result A × Db D)
          → Covered D x.1
          → Covered D
              (let (r, s') = x in
                elim r as (λ _. Result A × Db D) [
                  | ok a ↦ (ok a, s')
                  | err e ↦ (err e, update_record D id (fail e) s')
                ]).1
      go (ok a, s') h = h
      go (err e, s') h = h

  get_fulfillment-state :
      (id : Text) (actor : Actor) (db : Db D) → (get_fulfillment D id actor db).1 ≡ db
  unfolding get_fulfillment ◌>>=◌
  get_fulfillment-state id actor db = ground arith

  acquire-SameStock :
      (around : Surroundings D) (key hash : Text) (db : Db D)
      → SameStock D db (acquire_confirm_execution_idempotency D around key hash db).1
  unfolding acquire_confirm_execution_idempotency acquire_idempotency
  acquire-SameStock around key hash db = ground arith

  execute_under-Covered :
      (digest : HashInput → Text) (id : Text) (scope : Option Text) (actor : Actor)
      (context : CommandContext) (now : ℕ) (record_id : Text) (db : Db D)
      → Covered D db
      → Leaves db (execute_under D digest id scope actor context now record_id) (Covered D)
  unfolding execute_under complete_record
  execute_under-Covered digest id scope actor context now record_id db h =
      marking_failed-Covered record_id _ (
        Leaves-bind
          (transaction (confirm_execution_transaction D digest id scope actor context now)) _
          (λ _ t. Covered D t) run (Ensures_of_state _ db (Covered D) run.at)
          λ _ t k. record { at = k })
    where
      run :
          Leaves db
            (transaction (confirm_execution_transaction D digest id scope actor context now))
            (Covered D)
      run =
          Leaves-transaction (confirm_execution_transaction D digest id scope actor context now) h
            (confirm_execution_transaction-Covered digest id scope actor context now db h)

  -- However a confirmation ends, no reservation is issued beyond its quantity after it, if none was
  -- before and the reservations have distinct identifiers.
  pub confirm_execution-Covered :
      (digest : HashInput → Text) (around : Surroundings D) (id : Text) (actor : Actor)
      (context : CommandContext) (db : Db D)
      → Covered D db
      → Leaves db (confirm_execution D digest around id actor context) (Covered D)
  unfolding confirm_execution
  confirm_execution-Covered digest around id actor context db h =
      Leaves-from_result (resolve_order_read_scope actor none) _ h λ scope e.
        Leaves-bind (acquire_confirm_execution_idempotency D around context.idempotency_key _) _
          (λ _ t. Covered D t) acquired (Ensures_of_state _ db (Covered D) acquired.at)
          λ a t k. Leaves-if a.replayed (read t k) (
            Leaves-bind
              (execute_under D digest id scope actor context around.performed_at a.record_id) _
              (λ _ u. Covered D u)
              (execute_under-Covered digest id scope actor context around.performed_at a.record_id t
                k)
              (Ensures_of_state _ t (Covered D)
                (execute_under-Covered digest id scope actor context around.performed_at a.record_id
                  t k).at)
              λ _ u k'. read u k')
    where
      acquired :
          Leaves db
            (acquire_confirm_execution_idempotency D around context.idempotency_key
              (digest (confirm_execution_request id)))
            (Covered D)
      acquired = record {
        at =
            same-Covered D db
              (acquire_confirm_execution_idempotency D around context.idempotency_key
                (digest (confirm_execution_request id)) db).1
              (acquire-SameStock around context.idempotency_key
                (digest (confirm_execution_request id)) db)
              h;
      }

      read : (t : Db D) → Covered D t → Leaves t (get_fulfillment D id actor) (Covered D)
      read t k = record { at = rw (get_fulfillment-state id actor t) k }
