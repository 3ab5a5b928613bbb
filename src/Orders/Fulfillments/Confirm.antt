-- ===== src/Orders/Fulfillments/Confirm.antt =====
-- `confirmExecution` of apps/api/src/modules/orders/fulfillments.service.ts: the status of the
-- order that follows the stock issue, and the frame with the idempotency record.
use sanmarino_crm.Orders.Fulfillments.Stock.{create_inventory_issue_side_effects}
use sanmarino_crm.Base.{
  ℕ, ◌||◌, Option, none, some, List, ◌++◌, Text, text_eq, text, ◌==◌, if◌then◌else◌,
}
use sanmarino_crm.Records.{
  Order, Fulfillment, FulfillmentItem, Actor, AuditLogRecord, execution_payload,
  fulfillment_reference, LoggedAction,
}
use sanmarino_crm.Errors.{
  not_found_exception, conflict_exception, other_error, transition_not_allowed,
}
use sanmarino_crm.Action.{
  Action, ◌>>=◌, ◌>>◌, pure, gets, or_throw, from_result, throw_if, modify, transaction,
}
use sanmarino_crm.Database.{Database, Db}
use sanmarino_crm.Status.{
  OrderStatus, order_status_eq, FulfillmentStatus, fulfillment_status_eq, reservation_status_eq,
  inventory_movement_type_eq,
}
use sanmarino_crm.Table.Insert.{create_in}
use sanmarino_crm.Transition.Matrices.{assert_order_status_transition}
use sanmarino_crm.Orders.Read.{resolve_order_read_scope}
use sanmarino_crm.Orders.Service.{
  refuse, status_patch, update_order_row, read_order_shipment_progress,
}
use sanmarino_crm.Orders.Fulfillments.{order_of, find_fulfillment, get_fulfillment}
use sanmarino_crm.Payments.Digest.{HashInput, confirm_execution_request, execution_event, take}
use sanmarino_crm.Payments.Idempotency.{
  CommandContext, Surroundings, AcquiredIdempotencyRecord, acquire_idempotency, marking_failed,
}
use sanmarino_crm.Payments.Writes.{complete_record}

abbrev pub confirm_execution_idempotency_scope : Text
confirm_execution_idempotency_scope = text "orders.fulfillment.confirm_execution.v1"

-- `fulfillment.fulfilledAt ?? new Date()`
abbrev pub or_now_at : Option ℕ → ℕ → ℕ
or_now_at none now = now
or_now_at (some at) now = at

module _ (D : Database) where
  -- The change of the order's status that the progress recommends; the answer is the status that the
  -- order has then, if one is recommended.
  unfoldable pub apply_recommended_status :
      Order → Option OrderStatus → ℕ → Action (Db D) (Option OrderStatus)
  unfolding refuse
  apply_recommended_status order none executed_at = pure none
  apply_recommended_status order (some target) executed_at =
      if order.status == target
      then pure (some target)
      else (refuse (assert_order_status_transition order.status target)
          >> modify (update_order_row D order.id (status_patch target executed_at))
          >> pure (some target))

  abbrev complete_fulfillment : ℕ → Fulfillment → Fulfillment
  complete_fulfillment executed_at f = record f {
    status = FulfillmentStatus.completed;
    fulfilled_at = some executed_at;
  }

  unfoldable pub mark_completed : Fulfillment → ℕ → Action (Db D) (Unit {0})
  mark_completed fulfillment executed_at =
      if fulfillment.status == FulfillmentStatus.pending
      then modify (λ (db : Db D). record db {
        fulfillments =
            D.fulfillments.update fulfillment.id (complete_fulfillment executed_at) db.fulfillments;
      })
      else pure tt

  abbrev execution_audit_record :
      (HashInput → Text)
      → Fulfillment
      → Option OrderStatus
      → ℕ
      → ℕ
      → Actor
      → CommandContext
      → Db D
      → AuditLogRecord
  execution_audit_record digest fulfillment shipment executed_at count actor context db = record {
    id = D.audit_log.next_id db.audit_log;
    event_id =
        text "fulfillment_confirm_execution_"
        ++ take 40 (digest (execution_event fulfillment.id context.idempotency_key));
    occurred_at = executed_at;
    action = LoggedAction.confirm_execution;
    entity_id = fulfillment.id;
    actor_user_id = actor.user_id;
    request_id = context.request_id;
    correlation_id = context.correlation_id;
    payload = execution_payload fulfillment.order_id executed_at shipment count;
  }

  unfoldable pub create_execution_audit :
      (HashInput → Text)
      → Fulfillment
      → Option OrderStatus
      → ℕ
      → ℕ
      → Actor
      → CommandContext
      → Action (Db D) (Unit {0})
  unfolding create_in take
  create_execution_audit digest fulfillment shipment executed_at count actor context db =
      create_in D.audit_log (λ (x : Db D). x.audit_log) (λ t x. record x { audit_log = t })
        (execution_audit_record digest fulfillment shipment executed_at count actor context db) db

  -- The transaction of `confirmExecution`
  unfoldable pub confirm_execution_transaction :
      (HashInput → Text)
      → Text
      → Option Text
      → Actor
      → CommandContext
      → ℕ
      → Action (Db D) (Unit {0})
  unfolding create_inventory_issue_side_effects apply_recommended_status mark_completed
      read_order_shipment_progress create_execution_audit
  confirm_execution_transaction digest fulfillment_id scope actor context now = do
    found ← gets (find_fulfillment D fulfillment_id scope)
    fulfillment ← or_throw found not_found_exception
    found_order ← gets (order_of D fulfillment.order_id)
    order ← or_throw found_order other_error
    throw_if
        (fulfillment.status == FulfillmentStatus.failed
          || fulfillment.status == FulfillmentStatus.cancelled)
        (conflict_exception transition_not_allowed)
    let executed_at = or_now_at fulfillment.fulfilled_at now
    mark_completed fulfillment executed_at
    count ←
        create_inventory_issue_side_effects D fulfillment.id fulfillment.order_id actor.user_id now
    progress ← read_order_shipment_progress D fulfillment.order_id
    shipment ← apply_recommended_status order progress.recommended_status executed_at
    create_execution_audit digest fulfillment shipment executed_at count actor context

  -- What is done under the record: the transaction, then the completion of the record outside it.
  unfoldable pub execute_under :
      (HashInput → Text)
      → Text
      → Option Text
      → Actor
      → CommandContext
      → ℕ
      → Text
      → Action (Db D) (Unit {0})
  unfolding confirm_execution_transaction complete_record
  execute_under digest fulfillment_id scope actor context now record_id =
      marking_failed D record_id (
        transaction (confirm_execution_transaction digest fulfillment_id scope actor context now)
        >> complete_record D record_id (fulfillment_reference fulfillment_id))

  -- `acquire_confirm_execution_idempotency`: the statements of payments.service.ts, with its own scope
  unfoldable pub acquire_confirm_execution_idempotency :
      Surroundings D → Text → Text → Action (Db D) AcquiredIdempotencyRecord
  unfolding acquire_idempotency
  acquire_confirm_execution_idempotency around =
      acquire_idempotency D around confirm_execution_idempotency_scope

  -- `confirmExecution`
  unfoldable pub confirm_execution :
      (HashInput → Text)
      → Surroundings D
      → Text
      → Actor
      → CommandContext
      → Action (Db D) (Fulfillment × List FulfillmentItem)
  unfolding execute_under acquire_confirm_execution_idempotency get_fulfillment
  confirm_execution digest around fulfillment_id actor context = do
    scope ← from_result (resolve_order_read_scope actor none)
    idempotency ←
        acquire_confirm_execution_idempotency around context.idempotency_key
          (digest (confirm_execution_request fulfillment_id))
    if idempotency.replayed
        then get_fulfillment D fulfillment_id actor
        else (execute_under digest fulfillment_id scope actor context around.performed_at
              idempotency.record_id
            >> get_fulfillment D fulfillment_id actor)
