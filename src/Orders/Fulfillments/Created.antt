-- ===== src/Orders/Fulfillments/Created.antt =====
-- What a new fulfillment contains (`createFulfillment` of fulfillments.service.ts).
use sanmarino_crm.Orders.Fulfillments.Inserted.{
  is_item_of, FitsOrder, check_requested_items-FitsOrder, check_delivery_task-same,
  check_pickup_window-same, fulfillment_rows, item_rows, create_fulfillment_row-rows,
  create_items-rows,
}
use sanmarino_crm.Base.{
  ℕ, ◌+◌, ◌*◌, ◌/◌, ◌≡◌, refl, ◌∙◌, sym, ap, Option, none, some, List, [], ◌∷◌, Text, text_eq, ◌==◌,
  total, first, All,
}
use mathlib.Core.Path.{subst}
use sanmarino_crm.Records.{Actor, Order, Fulfillment}
use sanmarino_crm.Action.{ok, gets}
use sanmarino_crm.Action.Ensures.{
  Ensures, Ensures-pure, Ensures-bind, Ensures-gets, Ensures-or_throw, Ensures-throw_if,
  Ensures-from_result, Ensures_mono, Ensures-transaction,
}
use sanmarino_crm.Status.{FulfillmentStatus}
use sanmarino_crm.Database.{Database, Db}
use sanmarino_crm.Orders.Read.{resolve_order_read_scope, restriction}
use sanmarino_crm.Orders.Steps.{find_order_for_command-first, is_command_order}
use sanmarino_crm.Orders.Fulfillments.{
  CreateFulfillmentInput, NormalizedItem, normalize_create_items, get_fulfillment,
}
use sanmarino_crm.Orders.Fulfillments.Create.{
  new_fulfillment, create_fulfillment_transaction, create_fulfillment,
}
use sanmarino_crm.Orders.Fulfillments.Fits.{Fresh, normalize_items_from-Fresh}

module _ (D : Database) where
  -- The rows that `createFulfillment` writes for an order, and what stands behind its items.
  pub record Created (payload : CreateFulfillmentInput) (scope : Option Text) (actor : Actor)
      (items : List NormalizedItem) (db : Db D) (id : Text) (t : Db D) : Type 0 where
    pub order : Order
    pub found :
        first (is_command_order payload.order_id scope) (D.orders.rows db.orders) ≡ some order
    pub fits : All (FitsOrder D db order.id) items
    pub fulfillment : Fulfillment
    pub same_id : id ≡ fulfillment.id
    pub of_order : fulfillment.order_id ≡ order.id
    pub is_pending : fulfillment.status ≡ FulfillmentStatus.pending
    pub not_executed : fulfillment.fulfilled_at ≡ none
    pub author : fulfillment.created_by ≡ actor.user_id
    pub rows :
        D.fulfillments.rows t.fulfillments ≡ fulfillment ∷ D.fulfillments.rows db.fulfillments
    pub written :
        (k : Text)
        → total (is_item_of id k) (λ i. i.qty) (D.fulfillment_items.rows t.fulfillment_items)
          ≡ total (λ i. i.order_item_id == k) (λ i. (i.qty + 500) / 1000 * 1000) items
            + total (is_item_of id k) (λ i. i.qty) (D.fulfillment_items.rows db.fulfillment_items)

  create_fulfillment_transaction-Created :
      (payload : CreateFulfillmentInput) (items : List NormalizedItem) (scope : Option Text)
      (actor : Actor) (now : ℕ) (db : Db D)
      → Ensures db
          (create_fulfillment_transaction D payload items scope actor now)
          (Created payload scope actor items db)
  unfolding create_fulfillment_transaction
  create_fulfillment_transaction-Created payload items scope actor now db =
      Ensures-bind (find_order_for_command-first D db payload.order_id scope)
        λ order db0 (same0, found). Ensures-throw_if _ _ _ λ type_fits.
          Ensures-bind (check_requested_items-FitsOrder D order.id items db0) λ _ db1 (same1, fits).
            Ensures-bind
              (check_delivery_task-same D order.id (restriction payload.delivery_task_id) db1)
              λ _ db2 same2.
                Ensures-bind (check_pickup_window-same D (restriction payload.pickup_window_id) db2)
                  λ _ db3 same3.
                    let same : db3 ≡ db = same3 ∙ same2 ∙ same1 ∙ same0 in
                    Ensures-bind (create_fulfillment_row-rows D payload order actor db3)
                      λ id db4 (same_id, row, old).
                        Ensures-bind (create_items-rows D id now items db4) λ _ t (kept, sums).
                          Ensures-pure id (record {
                            order = order;
                            found = found;
                            fits = subst (λ x. All (FitsOrder D x order.id) items) same0 fits;
                            same_id =
                                subst (λ x. id ≡ (new_fulfillment D payload order actor x).id) same
                                  same_id;
                            fulfillment = new_fulfillment D payload order actor db;
                            of_order = refl;
                            is_pending = refl;
                            not_executed = refl;
                            author = refl;
                            rows =
                                subst
                                  (λ x.
                                    fulfillment_rows D t
                                    ≡ new_fulfillment D payload order actor x
                                      ∷ fulfillment_rows D x)
                                  same (ap D.fulfillments.rows kept ∙ row);
                            written = λ k.
                                subst
                                  (λ x.
                                    total (is_item_of id k) (λ i. i.qty) (item_rows D t)
                                    ≡ total (λ i. i.order_item_id == k)
                                        (λ i. (i.qty + 500) / 1000 * 1000) items
                                      + total (is_item_of id k) (λ i. i.qty) (item_rows D x))
                                  same
                                  (sums k
                                    ∙ ap
                                        (λ l.
                                          total (λ i. i.order_item_id == k)
                                            (λ i. (i.qty + 500) / 1000 * 1000) items
                                          + total (is_item_of id k) (λ i. i.qty) l)
                                        old);
                          })

  -- The items that a payload asks for, checked.
  pub record Answered (payload : CreateFulfillmentInput) (actor : Actor) (db t : Db D)
      : Type 0 where
    pub scope : Option Text
    pub in_scope : resolve_order_read_scope actor none ≡ ok scope
    pub items : List NormalizedItem
    pub normalized : normalize_create_items payload.items ≡ ok items
    pub fresh : Fresh [] items
    pub id : Text
    pub created : Created payload scope actor items db id t

  get_fulfillment-same :
      (id : Text) (actor : Actor) (db : Db D)
      → Ensures db (get_fulfillment D id actor) (λ _ t. t ≡ db)
  unfolding get_fulfillment gets
  get_fulfillment-same id actor db =
      Ensures-from_result _ _
        λ scope e. Ensures-gets _ _ (Ensures-or_throw _ _ _ λ f found. record { at = refl })

  -- A creation that returns has found the order in the caller's scope, has normalised the items to
  -- positive quantities of distinct order items, each an item of that order with at least that
  -- quantity, and has added one fulfillment of that order by the caller, pending and not executed,
  -- and item rows that add up to the items, each rounded to three digits.
  pub create_fulfillment-Answered :
      (payload : CreateFulfillmentInput) (actor : Actor) (now : ℕ) (db : Db D)
      → Ensures db (create_fulfillment D payload actor now) (λ _ t. Answered payload actor db t)
  unfolding create_fulfillment
  create_fulfillment-Answered payload actor now db = Ensures-from_result _ _ λ scope in_scope.
      Ensures-from_result _ _ λ items normalized.
        Ensures-bind
          (Ensures-transaction
            (create_fulfillment_transaction-Created payload items scope actor now db))
          λ id t created. Ensures_mono (get_fulfillment-same id actor t) λ _ u same. record {
            scope = scope;
            in_scope = in_scope;
            items = items;
            normalized = normalized;
            fresh = normalize_items_from-Fresh [] payload.items normalized;
            id = id;
            created = subst (Created payload scope actor items db id) (sym same) created;
          }
