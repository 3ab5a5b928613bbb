-- ===== src/Orders/Fulfillments/Create.antt =====
-- `createFulfillment` of apps/api/src/modules/orders/fulfillments.service.ts.
use sanmarino_crm.Base.{
  ℕ, ◌+◌, ◌*◌, ◌/◌, Bool, not, Option, none, some, List, [], ◌∷◌, Text, text_eq, ◌==◌,
}
use sanmarino_crm.Records.{Order, Fulfillment, FulfillmentItem, Actor}
use sanmarino_crm.Errors.{conflict_exception, validation_error}
use sanmarino_crm.Action.{Action, ◌>>=◌, ◌>>◌, pure, from_result, throw_if, transaction}
use sanmarino_crm.Database.{Database, Db}
use sanmarino_crm.Status.{FulfillmentStatus, OrderFulfillmentType, order_fulfillment_type_eq}
use sanmarino_crm.Table.Insert.{create_in}
use sanmarino_crm.Orders.Read.{resolve_order_read_scope, restriction, find_order_for_command}
use sanmarino_crm.Orders.Fulfillments.{
  CreateFulfillmentInput, NormalizedItem, normalize_items_from, normalize_create_items,
  get_fulfillment, check_requested_items, check_delivery_task, check_pickup_window,
}

-- `payload.fulfillmentType && payload.fulfillmentType !== order.fulfillmentType` is refused.
abbrev is_other_type : Option OrderFulfillmentType → OrderFulfillmentType → Bool
is_other_type none t = Bool.false
is_other_type (some u) t = not (u == t)

abbrev or_type : Option OrderFulfillmentType → OrderFulfillmentType → OrderFulfillmentType
or_type none t = t
or_type (some u) t = u

-- `qty Decimal(14, 3)`: the column rounds what it gets, the decimal that the text of the item writes,
-- to three digits.
abbrev pub stored_item_qty : ℕ → ℕ
stored_item_qty qty = (qty + 500) / 1000 * 1000

module _ (D : Database) where
  abbrev pub new_fulfillment : CreateFulfillmentInput → Order → Actor → Db D → Fulfillment
  new_fulfillment payload order actor db = record {
    id = D.fulfillments.next_id db.fulfillments;
    order_id = order.id;
    status = FulfillmentStatus.pending;
    fulfillment_type = or_type payload.fulfillment_type order.fulfillment_type;
    delivery_task_id = restriction payload.delivery_task_id;
    pickup_window_id = restriction payload.pickup_window_id;
    fulfilled_at = none;
    created_by = actor.user_id;
  }

  -- `ordersFulfillment.create`, which answers the identifier
  unfoldable pub create_fulfillment_row :
      CreateFulfillmentInput → Order → Actor → Action (Db D) Text
  unfolding create_in
  create_fulfillment_row payload order actor db =
      let row = new_fulfillment payload order actor db in
      (create_in D.fulfillments (λ (x : Db D). x.fulfillments)
            (λ t x. record x { fulfillments = t }) row
          >> pure row.id)
        db

  abbrev pub new_item : Text → ℕ → NormalizedItem → Db D → FulfillmentItem
  new_item fulfillment_id now item db = record {
    id = D.fulfillment_items.next_id db.fulfillment_items;
    fulfillment_id = fulfillment_id;
    order_item_id = item.order_item_id;
    qty = stored_item_qty item.qty;
    created_at = now;
  }

  unfoldable pub create_item : Text → ℕ → NormalizedItem → Action (Db D) (Unit {0})
  unfolding create_in
  create_item fulfillment_id now item db =
      create_in D.fulfillment_items (λ (x : Db D). x.fulfillment_items)
        (λ t x. record x { fulfillment_items = t }) (new_item fulfillment_id now item db) db

  -- `ordersFulfillmentItem.createMany`
  unfoldable pub create_items : Text → ℕ → List NormalizedItem → Action (Db D) (Unit {0})
  unfolding create_item
  create_items fulfillment_id now [] = pure tt
  create_items fulfillment_id now (item ∷ items) =
      create_item fulfillment_id now item >> create_items fulfillment_id now items

  unfoldable pub create_fulfillment_transaction :
      CreateFulfillmentInput → List NormalizedItem → Option Text → Actor → ℕ → Action (Db D) Text
  unfolding create_fulfillment_row create_items check_requested_items check_delivery_task
  create_fulfillment_transaction payload items scope actor now = do
    order ← find_order_for_command D payload.order_id scope
    throw_if (is_other_type payload.fulfillment_type order.fulfillment_type)
        (conflict_exception validation_error)
    check_requested_items D order.id items
    check_delivery_task D order.id (restriction payload.delivery_task_id)
    check_pickup_window D (restriction payload.pickup_window_id)
    id ← create_fulfillment_row payload order actor
    create_items id now items
    pure id

  -- `createFulfillment`
  unfoldable pub create_fulfillment :
      CreateFulfillmentInput → Actor → ℕ → Action (Db D) (Fulfillment × List FulfillmentItem)
  unfolding create_fulfillment_transaction normalize_items_from get_fulfillment
  create_fulfillment payload actor now = do
    scope ← from_result (resolve_order_read_scope actor none)
    items ← from_result (normalize_create_items payload.items)
    id ← transaction (create_fulfillment_transaction payload items scope actor now)
    get_fulfillment D id actor
