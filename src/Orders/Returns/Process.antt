-- ===== src/Orders/Returns/Process.antt =====
-- `processReturnRequest` of return-requests.service.ts.
use sanmarino_crm.Base.{
  ℕ, ◌+◌, Option, none, some, List, [], ◌∷◌, map, Text, text, text_eq, if◌then◌else◌,
}
use sanmarino_crm.Records.{
  ReturnRequest, ReturnRequestItem, InventoryMovement, Actor, ReturnAction, return_process_payload,
  return_request_processed, return_request_reference, ReturnRequestItemResolution,
  return_request_item_resolution_eq, return_to_quarantine, writeoff, refund_only,
}
use sanmarino_crm.Errors.{conflict_exception, source_of_truth_violation}
use sanmarino_crm.Action.{Action, ◌>>=◌, ◌>>◌, pure, gets, or_throw, modify}
use sanmarino_crm.Database.{Database, Db}
use sanmarino_crm.Status.{ReturnRequestStatus, InventoryBucketStatus}
use sanmarino_crm.Transition.Matrices.{assert_return_request_status_transition}
use sanmarino_crm.Orders.Fulfillments.Stock.{create_movement}
use sanmarino_crm.Orders.Service.{refuse}
use sanmarino_crm.Orders.Returns.Goods.{
  GoodsItem, is_goods, movement_type_of, goods_item, resolve_warehouse_for_return_item,
}
use sanmarino_crm.Orders.Returns.Frame.{
  run_return_command, create_return_audit, find_return_request_for_command, return_items,
  update_return,
}
use sanmarino_crm.Payments.Digest.{HashInput, simple_return_request}
use sanmarino_crm.Payments.Idempotency.{CommandContext, Surroundings}
use sanmarino_crm.Payments.Writes.{create_outbox_record, complete_record}

abbrev pub process_return_scope : Text
process_return_scope = text "orders.return_request.process.v1"

abbrev bucket_to_of : ReturnRequestItemResolution → Option InventoryBucketStatus
bucket_to_of writeoff = none
bucket_to_of return_to_quarantine = some InventoryBucketStatus.quarantine
bucket_to_of refund_only = some InventoryBucketStatus.quarantine

abbrev reason_of : ReturnRequestItemResolution → Text
reason_of writeoff = text "return_request.processed_writeoff"
reason_of return_to_quarantine = text "return_request.processed_to_quarantine"
reason_of refund_only = text "return_request.processed_to_quarantine"

abbrev pub processed_return : ℕ → ReturnRequest → ReturnRequest
processed_return now r = record r {
  status = ReturnRequestStatus.processed;
  processed_at = some now;
}

module _ (D : Database) where
  abbrev pub return_movement :
      ReturnRequest → Actor → ℕ → GoodsItem → Text → Db D → InventoryMovement
  return_movement r actor now item warehouse_id db = record {
    id = D.inventory_movements.next_id db.inventory_movements;
    movement_type = movement_type_of item.resolution;
    product_id = item.product_id;
    warehouse_id = warehouse_id;
    qty = item.qty;
    bucket_from = none;
    bucket_to = bucket_to_of item.resolution;
    order_id = some r.order_id;
    fulfillment_id = none;
    return_request_id = some r.id;
    reservation_id = none;
    reason = some (reason_of item.resolution);
    performed_by = actor.user_id;
    created_at = now;
  }

  unfoldable pub move_item : ReturnRequest → Actor → ℕ → GoodsItem → Action (Db D) (Unit {0})
  unfolding resolve_warehouse_for_return_item create_movement
  move_item r actor now item = do
    found ← gets (resolve_warehouse_for_return_item D r.order_id item.product_id)
    warehouse_id ← or_throw found (conflict_exception source_of_truth_violation)
    create_movement D (return_movement r actor now item warehouse_id)

  -- The loop over the items; the answer is `inventoryMovementCount`.
  unfoldable pub move_items : ReturnRequest → Actor → ℕ → List GoodsItem → Action (Db D) ℕ
  unfolding move_item
  move_items r actor now [] = pure 0
  move_items r actor now (item ∷ items) =
      let rest = move_items r actor now items in
      if is_goods item then (move_item r actor now item >> rest >>= λ n. pure (1 + n)) else rest

  unfoldable pub process_return_transaction :
      (HashInput → Text) → Text → Actor → CommandContext → ℕ → Text → Action (Db D) Text
  unfolding find_return_request_for_command refuse move_items create_return_audit
      create_outbox_record complete_record
  process_return_transaction digest return_request_id actor context now record_id = do
    return_request ← find_return_request_for_command D return_request_id actor
    items ← gets (λ (db : Db D). map (goods_item D db) (return_items D return_request.id db))
    refuse (
        assert_return_request_status_transition return_request.status ReturnRequestStatus.processed)
    count ← move_items return_request actor now items
    modify (update_return D return_request.id (processed_return now))
    create_return_audit D digest ReturnAction.process now return_request.id actor context
        (return_process_payload return_request.order_id count)
    create_outbox_record D (return_request_processed return_request.id now count)
    complete_record D record_id (return_request_reference return_request.id)
    pure return_request.id

  -- `processReturnRequest`
  unfoldable pub process_return :
      (HashInput → Text)
      → Surroundings D
      → Text
      → Actor
      → CommandContext
      → Action (Db D) (ReturnRequest × List ReturnRequestItem)
  unfolding run_return_command process_return_transaction
  process_return digest around id actor context =
      run_return_command D around process_return_scope context.idempotency_key
        (digest (simple_return_request id)) actor (some id)
        (process_return_transaction digest id actor context around.performed_at)
