-- ===== src/Orders/Steps.antt =====
-- What each step of a command of orders.service.ts ensures.
use sanmarino_crm.Base.{
  ℕ, ◌≡◌, refl, Bool, true, false, ◌&&◌, not, Option, none, some, List, Text, text_eq, ◌==◌,
  if◌then◌else◌, first, arith,
}
use sanmarino_crm.Records.{Order, Actor}
use sanmarino_crm.Action.{pure, from_result, Result, ok, err, ◌>>=◌}
use sanmarino_crm.Action.Ensures.{Ensures, Ensures-pure, Ensures-bind}
use sanmarino_crm.Errors.{Exception}
use sanmarino_crm.Database.{Database, Db}
use sanmarino_crm.Orders.Read.{
  find_order_for_command, get_order, get_order_by_id, owned_by, restriction,
  resolve_order_read_scope,
}
use sanmarino_crm.Orders.Service.{
  refuse, check_shipment, read_order_shipment_progress, build_control_patch,
  assert_shipment_status_requirement, is_shipment_status, shipment_progress_input,
  has_uncovered_amount, put_on_control,
}
use sanmarino_crm.Orders.Shipment.{ProgressSummary, returns, evaluate_order_shipment_progress}
use sanmarino_crm.Status.{
  OrderStatus, order_status_eq, OrderControlOverlayStatus, order_control_overlay_status_eq,
}
use sanmarino_crm.Transition.Matrices.{assert_order_control_overlay_transition}

-- The query of a command, and the query of the read that ends it.
abbrev pub is_command_order : Text → Option Text → Order → Bool
is_command_order order_id scope o =
    o.id == order_id && not o.is_deleted && owned_by (restriction scope) o

abbrev pub is_read_order : Text → Option Text → Order → Bool
is_read_order order_id scope o = o.id == order_id && owned_by (restriction scope) o

pub refuse-none :
    {S E : Type 0} (x : Option E) (s : S) → Ensures s (refuse x) (λ _ t. (t ≡ s) × (x ≡ none))
unfolding refuse
refuse-none none s = record { at = (refl, refl) }
refuse-none (some e) s = record { at = tt }

module _ (D : Database) (db : Db D) where
  abbrev pub order_rows : List Order
  order_rows = D.orders.rows db.orders

  pub find_order_for_command-first :
      (order_id : Text) (scope : Option Text)
      → Ensures db
          (find_order_for_command D order_id scope)
          (λ o t. (t ≡ db) × (first (is_command_order order_id scope) order_rows ≡ some o))
  unfolding find_order_for_command ◌>>=◌
  find_order_for_command-first order_id scope = record {
    at = ground (arith, D.orders.find_first_lem (is_command_order order_id scope) db.orders);
  }

  -- The order that the last read of a command answers.
  pub get_order-first :
      (order_id : Text) (actor : Actor) {scope : Option Text}
      → resolve_order_read_scope actor none ≡ ok scope
      → Ensures db
          (get_order D order_id actor)
          (λ o t. (t ≡ db) × (first (is_read_order order_id scope) order_rows ≡ some o))
  unfolding get_order get_order_by_id ◌>>=◌
  get_order-first order_id actor {scope} e = record {
    at = ground (arith, e, D.orders.find_first_lem (is_read_order order_id scope) db.orders);
  }

  -- The evidence that a shipment has passed its guard on.
  abbrev pub Cleared : OrderStatus → Text → Type 0
  Cleared target order_id =
      is_shipment_status target ≡ true
      → (s : ProgressSummary) × (evaluate_order_shipment_progress
            (shipment_progress_input D order_id db)
          ≡ returns s)
        × (assert_shipment_status_requirement target s ≡ none)

  read_order_shipment_progress-returns :
      (order_id : Text)
      → Ensures db (read_order_shipment_progress D order_id) (λ s t.
        (t ≡ db)
        × (evaluate_order_shipment_progress (shipment_progress_input D order_id db) ≡ returns s))
  unfolding read_order_shipment_progress
  read_order_shipment_progress-returns order_id = record { at = ground arith }

  required :
      (target : OrderStatus) (order_id : Text) (progress : ProgressSummary) (t : Db D)
      → t ≡ db
      → evaluate_order_shipment_progress (shipment_progress_input D order_id db) ≡ returns progress
      → (x : Option Exception) → assert_shipment_status_requirement target progress ≡ x
      → Ensures t
          (from_result (elim x as (λ _. Result (Unit {0})) [ none ↦ ok tt | some e ↦ err e ]))
          (λ _ u. (u ≡ db) × Cleared target order_id)
  unfolding from_result
  required target order_id progress t same r none e = record { at = (same, λ _. (progress, r, e)) }
  required target order_id progress t same r (some x) e = record { at = tt }

  pub check_shipment-Cleared :
      (target : OrderStatus) (order_id : Text)
      → Ensures db (check_shipment D target order_id) (λ _ t. (t ≡ db) × Cleared target order_id)
  unfolding check_shipment
  check_shipment-Cleared target order_id = branch (is_shipment_status target) refl
    where
      branch :
          (b : Bool)
          → is_shipment_status target ≡ b
          → Ensures db
              (if b
                then (read_order_shipment_progress D order_id >>= λ progress.
                    from_result (elim (assert_shipment_status_requirement target progress) [
                      | none ↦ ok tt
                      | some error ↦ err error
                    ]))
                else pure tt)
              (λ _ t. (t ≡ db) × Cleared target order_id)
      branch true e =
          Ensures-bind (read_order_shipment_progress-returns order_id)
            λ progress t (same, r). required target order_id progress t same r _ refl
      branch false e = Ensures-pure tt (refl, λ h. absurd (cc (h, e)))

  abbrev pub is_uncovered : Order → OrderStatus → Bool
  is_uncovered order target =
      is_shipment_status target
      && has_uncovered_amount D order db
      && order.payment_control_status == OrderControlOverlayStatus.none

  pub build_control_patch-if :
      (order : Order) (target : OrderStatus) (now : ℕ)
      → Ensures db (build_control_patch D order target now) (λ patch t.
        (t ≡ db) × (patch ≡ (if is_uncovered order target then put_on_control now else (λ o. o))))
  unfolding build_control_patch assert_order_control_overlay_transition refuse ◌>>=◌
  build_control_patch-if order target now = record { at = ground arith }
