-- ===== src/Orders/Fulfillments/SameStock.antt =====
-- The steps of a confirmation that touch neither reservations nor movements.
use sanmarino_crm.Base.{ℕ, ◌≡◌, refl, Option, none, some, Text, arith}
use sanmarino_crm.Records.{Actor, Order, Fulfillment}
use sanmarino_crm.Status.{OrderStatus}
use sanmarino_crm.Action.{◌>>=◌}
use sanmarino_crm.Action.Ensures.{Ensures, Ensures-pure}
use sanmarino_crm.Database.{Database, Db}
use sanmarino_crm.Table.Insert.{Ensures-create_in}
use sanmarino_crm.Orders.Service.{read_order_shipment_progress}
use sanmarino_crm.Orders.Fulfillments.Confirm.{
  mark_completed, apply_recommended_status, create_execution_audit,
}
use sanmarino_crm.Orders.Fulfillments.Ledger.{Covered}
use sanmarino_crm.Payments.Digest.{HashInput}
use sanmarino_crm.Payments.Idempotency.{CommandContext}

module _ (D : Database) where
  -- Two states with the same reservations and the same movements.
  abbrev pub SameStock : Db D → Db D → Type 0
  SameStock db t =
      (t.reservations ≡ db.reservations) × (t.inventory_movements ≡ db.inventory_movements)

  pub same-Covered : (db t : Db D) → SameStock db t → Covered D db → Covered D t
  same-Covered db t same h = rw (same.0, same.1) h

  pub mark_completed-SameStock :
      (f : Fulfillment) (at : ℕ) (db : Db D)
      → Ensures db (mark_completed D f at) (λ _ t. SameStock db t)
  unfolding mark_completed ◌>>=◌
  mark_completed-SameStock f at db = record { at = ground arith }

  pub read_order_shipment_progress-SameStock :
      (o : Text) (db : Db D) → Ensures db (read_order_shipment_progress D o) (λ _ t. SameStock db t)
  unfolding read_order_shipment_progress
  read_order_shipment_progress-SameStock o db = record { at = ground arith }

  pub apply_recommended_status-SameStock :
      (o : Order) (target : Option OrderStatus) (at : ℕ) (db : Db D)
      → Ensures db (apply_recommended_status D o target at) (λ _ t. SameStock db t)
  unfolding apply_recommended_status ◌>>=◌
  apply_recommended_status-SameStock o none at db = Ensures-pure none (refl, refl)
  apply_recommended_status-SameStock o (some target) at db = record { at = ground arith }

  pub create_execution_audit-SameStock :
      (digest : HashInput → Text) (f : Fulfillment) (s : Option OrderStatus) (at n : ℕ)
      (actor : Actor) (context : CommandContext) (db : Db D)
      → Ensures db (create_execution_audit D digest f s at n actor context) (λ _ t. SameStock db t)
  unfolding create_execution_audit
  create_execution_audit-SameStock digest f s at n actor context db = record {
    at =
        (Ensures-create_in D.audit_log (λ x. x.audit_log) (λ t x. record x { audit_log = t }) _ db
          (λ _ t. SameStock db t) (λ t e. (refl, refl))).at;
  }
