-- ===== src/Orders/Service.antt =====
-- The commands of apps/api/src/modules/orders/orders.service.ts: the change of an order's status and
-- of its payment control. A quantity is a number of millionths, an amount one of hundredths.
use sanmarino_crm.Base.{
  ℕ, Bool, true, false, ◌&&◌, ◌||◌, not, Option, none, some, List, map, Text, text_eq, ◌==◌, any,
  if◌then◌else◌,
}
use sanmarino_crm.Records.{
  Order, OrderItem, FulfillmentItem, Payment, Actor, RoleCode, admin, seller, warehouse, logistics,
  finance, ceo, driver, marketing,
}
use sanmarino_crm.Errors.{
  Exception, conflict_exception, forbidden_exception, access_denied, transition_not_allowed,
  fulfillment_progress_invalid, fulfillment_progress_required, fulfillment_progress_complete,
  fulfillment_progress_incomplete,
}
use sanmarino_crm.Action.{ok, err, Action, ◌>>=◌, ◌>>◌, pure, from_result, throw_if, modify}
use sanmarino_crm.Database.{Database, Db}
use sanmarino_crm.Orders.Read.{find_order_for_command, get_order, resolve_order_read_scope}
use sanmarino_crm.Orders.Shipment.{
  ProgressInput, ProgressSummary, returns, throws, evaluate_order_shipment_progress,
}
use sanmarino_crm.Status.{
  OrderStatus, order_status_eq, OrderControlOverlayStatus, order_control_overlay_status_eq,
  FulfillmentStatus, fulfillment_status_eq, PaymentStatus, payment_status_eq,
}
use sanmarino_crm.Transition.Matrices.{
  assert_order_status_transition, assert_order_control_overlay_transition,
}

abbrev pub is_shipment_status : OrderStatus → Bool
is_shipment_status status = status == OrderStatus.partially_shipped || status == OrderStatus.shipped

abbrev pub may_clear : RoleCode → Bool
may_clear finance = true
may_clear ceo = true
may_clear admin = true
may_clear seller = false
may_clear warehouse = false
may_clear logistics = false
may_clear driver = false
may_clear marketing = false

abbrev pub can_clear_problem_overlay : Actor → Bool
can_clear_problem_overlay actor = any may_clear actor.role_codes

-- What a guard throws is answered as a conflict.
unfoldable pub refuse : {S E : Type 0} → Option E → Action S (Unit {0})
refuse none s = (ok tt, s)
refuse (some error) s = (err (conflict_exception transition_not_allowed), s)

abbrev pub or_now : ℕ → Option ℕ → Option ℕ
or_now now none = some now
or_now now (some at) = some at

-- `statusPatch` without the control of payments
abbrev pub status_patch : OrderStatus → ℕ → Order → Order
status_patch OrderStatus.assembling now o = record o { status = OrderStatus.assembling }
status_patch OrderStatus.ready_for_partial_shipment now o = record o {
  status = OrderStatus.ready_for_partial_shipment;
  ready_for_partial_shipment_at = or_now now o.ready_for_partial_shipment_at;
}
status_patch OrderStatus.ready_for_shipment now o = record o {
  status = OrderStatus.ready_for_shipment;
  ready_for_shipment_at = or_now now o.ready_for_shipment_at;
}
status_patch OrderStatus.partially_shipped now o = record o {
  status = OrderStatus.partially_shipped;
  partially_shipped_at = or_now now o.partially_shipped_at;
}
status_patch OrderStatus.shipped now o = record o {
  status = OrderStatus.shipped;
  shipped_at = or_now now o.shipped_at;
}

abbrev pub is_recommended : OrderStatus → Option OrderStatus → Bool
is_recommended s none = false
is_recommended s (some r) = r == s

-- `assert_shipment_status_requirement`: `some` is what it throws.
unfoldable pub assert_shipment_status_requirement : OrderStatus → ProgressSummary → Option Exception
assert_shipment_status_requirement target progress =
    if not progress.has_completed_fulfillment
    then some (conflict_exception fulfillment_progress_required)
    else if target == OrderStatus.partially_shipped
    then (if is_recommended OrderStatus.shipped progress.recommended_status
        then some (conflict_exception fulfillment_progress_complete)
        else if not (is_recommended OrderStatus.partially_shipped progress.recommended_status)
        then some (conflict_exception fulfillment_progress_required)
        else none)
    else if not (is_recommended OrderStatus.shipped progress.recommended_status)
    then some (conflict_exception fulfillment_progress_incomplete)
    else none

-- The patch of the payment control on a shipment.
abbrev pub put_on_control : ℕ → Order → Order
put_on_control now o = record o {
  payment_control_status = OrderControlOverlayStatus.on_control;
  payment_control_due_at = or_now now o.payment_control_due_at;
}

-- `overlayPatch`
abbrev pub overlay_patch : OrderControlOverlayStatus → ℕ → Order → Order
overlay_patch target now o = record o {
  payment_control_status = target;
  payment_control_due_at =
      if target == OrderControlOverlayStatus.none
      then none
      else or_now now o.payment_control_due_at;
}

module _ (D : Database) where
  abbrev pub items_of_order : Text → Db D → List OrderItem
  items_of_order order_id db = D.order_items.find_many (λ i. i.order_id == order_id) db.order_items

  abbrev count_fulfillments : Text → FulfillmentStatus → Db D → ℕ
  count_fulfillments order_id status db =
      D.fulfillments.sum (λ f. f.order_id == order_id && f.status == status) (λ f. 1)
        db.fulfillments

  -- `fulfillment: { orderId, status: "COMPLETED" }` in a `where`
  abbrev in_completed_fulfillment : Text → Db D → FulfillmentItem → Bool
  in_completed_fulfillment order_id db i =
      elim (D.fulfillments.find_first (λ f. f.id == i.fulfillment_id) db.fulfillments) [
        | none ↦ false
        | some f ↦ f.order_id == order_id && f.status == FulfillmentStatus.completed
      ]

  abbrev pub completed_items_of_order : Text → Db D → List FulfillmentItem
  completed_items_of_order order_id db =
      D.fulfillment_items.find_many (in_completed_fulfillment order_id db) db.fulfillment_items

  -- The four reads of `read_order_shipment_progress`.
  abbrev pub shipment_progress_input : Text → Db D → ProgressInput
  shipment_progress_input order_id db = record {
    order_items =
        map (λ (i : OrderItem). record { order_item_id = i.id; qty = i.qty })
          (items_of_order order_id db);
    completed_fulfillment_count = count_fulfillments order_id FulfillmentStatus.completed db;
    pending_fulfillment_count = count_fulfillments order_id FulfillmentStatus.pending db;
    completed_shipment_items =
        map (λ (i : FulfillmentItem). record { order_item_id = i.order_item_id; qty = i.qty })
          (completed_items_of_order order_id db);
  }

  unfoldable pub read_order_shipment_progress : Text → Action (Db D) ProgressSummary
  unfolding evaluate_order_shipment_progress
  read_order_shipment_progress order_id db =
      elim (evaluate_order_shipment_progress (shipment_progress_input order_id db)) [
        | returns summary ↦ (ok summary, db)
        | throws error ↦ (err (conflict_exception fulfillment_progress_invalid), db)
      ]

  -- The guard of a shipment: nothing for the other statuses.
  unfoldable pub check_shipment : OrderStatus → Text → Action (Db D) (Unit {0})
  unfolding read_order_shipment_progress assert_shipment_status_requirement
  check_shipment target order_id =
      if is_shipment_status target
      then (read_order_shipment_progress order_id >>= λ progress.
          from_result (elim (assert_shipment_status_requirement target progress) [
            | none ↦ ok tt
            | some error ↦ err error
          ]))
      else pure tt

  abbrev is_paid : Text → Payment → Bool
  is_paid order_id p =
      p.order_id == order_id && p.status == PaymentStatus.completed && not p.is_deleted

  -- `grossPaid` and `refunded` of `read_uncovered_amount`
  abbrev pub gross_paid_of_order : Text → Db D → ℕ
  gross_paid_of_order order_id db = D.payments.sum (is_paid order_id) (λ p. p.amount) db.payments

  abbrev pub refunded_of_order : Text → Db D → ℕ
  refunded_of_order order_id db =
      D.payments.sum (is_paid order_id) (λ p. p.refunded_amount) db.payments

  -- `uncoveredAmount > 0`
  abbrev pub has_uncovered_amount : Order → Db D → Bool
  has_uncovered_amount order db =
      D.doubles.is_uncovered order.total_amount (gross_paid_of_order order.id db)
        (refunded_of_order order.id db)

  -- `build_system_money_control_patch_for_shipment_transition`
  unfoldable pub build_control_patch : Order → OrderStatus → ℕ → Action (Db D) (Order → Order)
  unfolding refuse
  build_control_patch order target now db =
      if not (is_shipment_status target)
      then (ok (λ o. o), db)
      else if not (has_uncovered_amount order db)
      then (ok (λ o. o), db)
      else if not (order.payment_control_status == OrderControlOverlayStatus.none)
      then (ok (λ o. o), db)
      else (refuse (
              assert_order_control_overlay_transition OrderControlOverlayStatus.none
                OrderControlOverlayStatus.on_control)
            >>= λ _. pure (put_on_control now))
          db

  abbrev pub update_order_row : Text → (Order → Order) → Db D → Db D
  update_order_row order_id f db = record db { orders = D.orders.update order_id f db.orders }

  -- `transitionOrderStatus`
  unfoldable pub transition_order_status : Text → OrderStatus → Actor → ℕ → Action (Db D) Order
  unfolding find_order_for_command get_order refuse check_shipment build_control_patch
  transition_order_status order_id target actor now = do
    scope ← from_result (resolve_order_read_scope actor none)
    order ← find_order_for_command D order_id scope
    refuse (assert_order_status_transition order.status target)
    check_shipment target order.id
    patch ← build_control_patch order target now
    modify (update_order_row order.id (λ o. patch (status_patch target now o)))
    get_order D order_id actor

  -- `transitionOrderControlOverlay`
  unfoldable pub transition_order_control_overlay :
      Text → OrderControlOverlayStatus → Actor → ℕ → Action (Db D) Order
  unfolding find_order_for_command get_order refuse
  transition_order_control_overlay order_id target actor now = do
    scope ← from_result (resolve_order_read_scope actor none)
    order ← find_order_for_command D order_id scope
    refuse (assert_order_control_overlay_transition order.payment_control_status target)
    throw_if
        (order.payment_control_status == OrderControlOverlayStatus.problem
          && target == OrderControlOverlayStatus.none
          && not (can_clear_problem_overlay actor))
        (forbidden_exception access_denied)
    modify (update_order_row order.id (overlay_patch target now))
    get_order D order_id actor
