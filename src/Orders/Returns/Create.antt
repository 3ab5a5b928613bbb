-- ===== src/Orders/Returns/Create.antt =====
-- `createReturnRequest` of return-requests.service.ts.
use sanmarino_crm.Base.{
  ℕ, Bool, true, false, ◌&&◌, Option, none, some, List, [], ◌∷◌, map, Text, text, text_eq, ◌==◌,
  contains,
}
use sanmarino_crm.Records.{
  FulfillmentItem, ReturnRequest, ReturnRequestItem, Actor, ReturnAction, return_create_payload,
  return_request_created, return_request_reference, ReturnRequestItemResolution,
}
use sanmarino_crm.Action.{Action, ◌>>=◌, ◌>>◌, pure, gets, from_result}
use sanmarino_crm.Database.{Database, Db}
use sanmarino_crm.Status.{ReturnRequestStatus, FulfillmentStatus, fulfillment_status_eq}
use sanmarino_crm.Table.Insert.{create_in}
use sanmarino_crm.Orders.Read.{resolve_order_read_scope, find_order_for_command}
use sanmarino_crm.Orders.Fulfillments.{NormalizedItem, check_requested_items, refused}
use sanmarino_crm.Orders.Shipment.{QtyMap}
use sanmarino_crm.Orders.Returns.{
  CreateReturnRequestInput, ReturnItem, ReturnedQty, normalize_reason, normalize_optional_amount,
  normalize_return_items_from, normalize_return_request_items, add_fulfilled, check_fulfilled,
}
use sanmarino_crm.Orders.Returns.Frame.{run_return_command, create_return_audit}
use sanmarino_crm.Payments.Digest.{HashInput, create_return_request}
use sanmarino_crm.Payments.Idempotency.{CommandContext, Surroundings}
use sanmarino_crm.Payments.Writes.{create_outbox_record, complete_record}

abbrev pub create_return_scope : Text
create_return_scope = text "orders.return_request.create.v1"

abbrev is_set : Option ℕ → Bool
is_set none = false
is_set (some n) = true

abbrev hash_item : ReturnItem → Text × ℕ × ReturnRequestItemResolution
hash_item i = (i.order_item_id, i.quantity, i.resolution)

abbrev pub as_requested : ReturnItem → NormalizedItem
as_requested i = record { order_item_id = i.order_item_id; qty = i.quantity }

abbrev pub as_returned : ReturnItem → ReturnedQty
as_returned i = record { order_item_id = i.order_item_id; quantity = i.quantity }

module _ (D : Database) where
  -- `fulfillment: { orderId, status: "completed", fulfilledAt: { not: null } }` in a `where`
  abbrev pub is_of_executed : Text → Db D → FulfillmentItem → Bool
  is_of_executed order_id db i =
      elim (D.fulfillments.find_first (λ f. f.id == i.fulfillment_id) db.fulfillments) [
        | none ↦ false
        | some f ↦
            f.order_id == order_id
            && f.status == FulfillmentStatus.completed
            && is_set f.fulfilled_at
      ]

  abbrev pub fulfilled_items : Text → List Text → Db D → List FulfillmentItem
  fulfilled_items order_id ids db =
      D.fulfillment_items.find_many
        (λ i. contains ids i.order_item_id && is_of_executed order_id db i) db.fulfillment_items

  -- `resolve_completed_fulfilled_qty_by_order_item`; without identifiers no row is found either.
  unfoldable pub resolve_completed_fulfilled_qty_by_order_item : Text → List Text → Db D → QtyMap
  unfolding add_fulfilled
  resolve_completed_fulfilled_qty_by_order_item order_id ids db =
      add_fulfilled [] (fulfilled_items order_id ids db)

  -- The read and `assert_return_items_do_not_exceed_fulfilled_qty`.
  unfoldable pub check_returned : Text → List ReturnedQty → Action (Db D) (Unit {0})
  unfolding resolve_completed_fulfilled_qty_by_order_item check_fulfilled
  check_returned order_id items = do
    fulfilled ← gets (
        resolve_completed_fulfilled_qty_by_order_item order_id
          (map (λ (i : ReturnedQty). i.order_item_id) items))
    from_result (refused (check_fulfilled fulfilled items))

  abbrev pub new_return : Text → Text → Option ℕ → Actor → Db D → ReturnRequest
  new_return order_id reason amount actor db = record {
    id = D.return_requests.next_id db.return_requests;
    order_id = order_id;
    status = ReturnRequestStatus.created;
    requested_by_user_id = actor.user_id;
    reason = reason;
    requested_refund_amount = amount;
    realization_anchor_at = none;
    confirmed_at = none;
    requires_ceo_approval = false;
    ceo_approved_by = none;
    ceo_approved_at = none;
    processed_at = none;
    closed_at = none;
    is_deleted = false;
  }

  -- `ordersReturnRequest.create`, which answers the identifier
  unfoldable pub create_return_row : Text → Text → Option ℕ → Actor → Action (Db D) Text
  unfolding create_in
  create_return_row order_id reason amount actor db =
      let row = new_return order_id reason amount actor db in
      (create_in D.return_requests (λ (x : Db D). x.return_requests)
            (λ t x. record x { return_requests = t }) row
          >> pure row.id)
        db

  abbrev pub new_return_item : Text → ℕ → ReturnItem → Db D → ReturnRequestItem
  new_return_item id now item db = record {
    id = D.return_request_items.next_id db.return_request_items;
    return_request_id = id;
    order_item_id = item.order_item_id;
    qty = item.quantity;
    resolution = item.resolution;
    created_at = now;
  }

  unfoldable pub create_return_item : Text → ℕ → ReturnItem → Action (Db D) (Unit {0})
  unfolding create_in
  create_return_item id now item db =
      create_in D.return_request_items (λ (x : Db D). x.return_request_items)
        (λ t x. record x { return_request_items = t }) (new_return_item id now item db) db

  -- `ordersReturnRequestItem.createMany`
  unfoldable pub create_return_items : Text → ℕ → List ReturnItem → Action (Db D) (Unit {0})
  unfolding create_return_item
  create_return_items id now [] = pure tt
  create_return_items id now (item ∷ items) =
      create_return_item id now item >> create_return_items id now items

  unfoldable pub create_return_transaction :
      (HashInput → Text)
      → Text
      → Text
      → Option ℕ
      → List ReturnItem
      → Actor
      → CommandContext
      → ℕ
      → Text
      → Action (Db D) Text
  unfolding check_requested_items check_returned create_return_row create_return_items
      create_return_audit create_outbox_record complete_record
  create_return_transaction digest order_id reason amount items actor context now record_id = do
    scope ← from_result (resolve_order_read_scope actor none)
    order ← find_order_for_command D order_id scope
    check_requested_items D order.id (map as_requested items)
    check_returned order.id (map as_returned items)
    id ← create_return_row order.id reason amount actor
    create_return_items id now items
    create_return_audit D digest ReturnAction.create now id actor context
        (return_create_payload order.id reason amount)
    create_outbox_record D (return_request_created id order.id reason now)
    complete_record D record_id (return_request_reference id)
    pure id

  -- `createReturnRequest`
  unfoldable pub create_return :
      (HashInput → Text)
      → Surroundings D
      → CreateReturnRequestInput
      → Actor
      → CommandContext
      → Action (Db D) (ReturnRequest × List ReturnRequestItem)
  unfolding normalize_reason normalize_optional_amount normalize_return_items_from
      run_return_command create_return_transaction
  create_return digest around payload actor context = do
    reason ← from_result (normalize_reason payload.reason)
    amount ← from_result (normalize_optional_amount payload.requested_refund_amount)
    items ← from_result (normalize_return_request_items payload.items)
    run_return_command D around create_return_scope context.idempotency_key
        (digest (create_return_request payload.order_id reason amount (map hash_item items))) actor
        none
        (create_return_transaction digest payload.order_id reason amount items actor context
          around.performed_at)
