-- ===== src/Orders/Returns/Created.antt =====
-- What `createReturnRequest` of return-requests.service.ts has checked and written when its transaction
-- returns.
use sanmarino_crm.Base.{
  ℕ, ◌+◌, ◌≡◌, refl, ◌∙◌, sym, Bool, false, ◌&&◌, Option, none, some, List, [], ◌∷◌, map, Text,
  text_eq, ◌==◌, ==-refl, total, first, All, arith,
}
use sanmarino_crm.Records.{Actor, Order, ReturnRequest, ReturnRequestItem, ReturnAction}
use sanmarino_crm.Action.{ok, ◌>>◌, pure}
use sanmarino_crm.Action.Ensures.{
  Ensures, Ensures-pure, Ensures-bind, Ensures-from_result, Ensures_mono,
}
use sanmarino_crm.Database.{Database, Db}
use sanmarino_crm.Status.{ReturnRequestStatus}
use sanmarino_crm.Table.Insert.{create_in, Ensures-create_in}
use sanmarino_crm.Orders.Read.{resolve_order_read_scope}
use sanmarino_crm.Orders.Steps.{find_order_for_command-first, is_command_order}
use sanmarino_crm.Orders.Fulfillments.Inserted.{FitsOrder, check_requested_items-FitsOrder}
use sanmarino_crm.Orders.Returns.{ReturnItem}
use sanmarino_crm.Orders.Returns.Create.{
  as_requested, as_returned, new_return, create_return_row, new_return_item, create_return_item,
  create_return_items, create_return_transaction,
}
use sanmarino_crm.Orders.Returns.Confirmed.{IsFulfilled, check_returned-IsFulfilled}
use sanmarino_crm.Orders.Returns.Laws.{ending}
use sanmarino_crm.Payments.Digest.{HashInput}
use sanmarino_crm.Payments.Idempotency.{CommandContext}

module _ (D : Database) where
  abbrev return_rows : Db D → List ReturnRequest
  return_rows db = D.return_requests.rows db.return_requests

  abbrev item_rows : Db D → List ReturnRequestItem
  item_rows db = D.return_request_items.rows db.return_request_items

  abbrev is_item_of_return : Text → Text → ReturnRequestItem → Bool
  is_item_of_return id k i = i.return_request_id == id && i.order_item_id == k

  create_return_row-rows :
      (order_id reason : Text) (amount : Option ℕ) (actor : Actor) (db : Db D)
      → Ensures db (create_return_row D order_id reason amount actor) (λ id t.
        (id ≡ (new_return D order_id reason amount actor db).id)
        × (return_rows t ≡ new_return D order_id reason amount actor db ∷ return_rows db)
        × (item_rows t ≡ item_rows db))
  unfolding create_return_row
  create_return_row-rows order_id reason amount actor db = record { at = added.at }
    where
      row : ReturnRequest
      row = new_return D order_id reason amount actor db

      added :
          Ensures db
            (create_in D.return_requests
                (λ (x : Db D). x.return_requests)
                (λ t x. record x { return_requests = t })
                row
              >> pure row.id)
            (λ id t.
              (id ≡ row.id) × (return_rows t ≡ row ∷ return_rows db) × (item_rows t ≡ item_rows db))
      added =
          Ensures-bind
            (Ensures-create_in D.return_requests (λ x. x.return_requests)
              (λ t x. record x { return_requests = t }) row db
              (λ _ t. (return_rows t ≡ row ∷ return_rows db) × (item_rows t ≡ item_rows db))
              (λ t e. (e, refl)))
            λ _ t h. Ensures-pure row.id (refl, h.0, h.1)

  -- The quantity that the item rows of a return hold for an order item.
  abbrev pub written_qty : Text → Text → Db D → ℕ
  written_qty id k db = total (is_item_of_return id k) (λ i. i.qty) (item_rows db)

  create_return_items-rows :
      (id : Text) (now : ℕ) (items : List ReturnItem) (db : Db D)
      → Ensures db (create_return_items D id now items) (λ _ t.
        (t.return_requests ≡ db.return_requests)
        × ((k : Text)
            → written_qty id k t
              ≡ total (λ i. i.order_item_id == k) (λ i. i.quantity) items + written_qty id k db))
  unfolding create_return_items create_return_item total
  create_return_items-rows id now [] db = Ensures-pure tt (refl, λ k. omega arith)
  create_return_items-rows id now (i ∷ is) db =
      Ensures-bind
        {R = λ _ t.
          (t.return_requests ≡ db.return_requests)
          × (item_rows t ≡ new_return_item D id now i db ∷ item_rows db)}
        (record {
          at =
              (Ensures-create_in D.return_request_items (λ x. x.return_request_items)
                (λ t x. record x { return_request_items = t }) (new_return_item D id now i db) db
                (λ _ t.
                  (t.return_requests ≡ db.return_requests)
                  × (item_rows t ≡ new_return_item D id now i db ∷ item_rows db))
                (λ t e. (refl, e))).at;
        })
        λ _ db1 (same, rows).
          Ensures_mono (create_return_items-rows id now is db1)
            λ _ t (same1, sums). (same1 ∙ same, λ k. rw (sums k, rows) (ground (arith, ==-refl id)))

  pub record Created (order_id reason : Text) (amount : Option ℕ) (items : List ReturnItem)
      (actor : Actor) (db : Db D) (id : Text) (t : Db D) : Type 0 where
    pub scope : Option Text
    pub in_scope : resolve_order_read_scope actor none ≡ ok scope
    pub order : Order
    pub found : first (is_command_order order_id scope) (D.orders.rows db.orders) ≡ some order
    pub fits : All (FitsOrder D db order.id) (map as_requested items)
    pub fulfilled : All (IsFulfilled D order.id (map as_returned items) db) (map as_returned items)
    pub same_id : id ≡ D.return_requests.next_id db.return_requests
    pub row :
        return_rows t
        ≡ record {
          id = D.return_requests.next_id db.return_requests;
          order_id = order.id;
          status = ReturnRequestStatus.created;
          requested_by_user_id = actor.user_id;
          reason = reason;
          requested_refund_amount = amount;
          realization_anchor_at = none;
          confirmed_at = none;
          requires_ceo_approval = false;
          ceo_approved_by = none;
          ceo_approved_at = none;
          processed_at = none;
          closed_at = none;
          is_deleted = false;
        }
          ∷ return_rows db
    pub written :
        (k : Text)
        → written_qty id k t
          ≡ total (λ i. i.order_item_id == k) (λ i. i.quantity) items + written_qty id k db

  -- When the transaction that creates a return request returns, each item is one of the order's, in
  -- the caller's scope, with at least that quantity, and gives back at most what completed
  -- fulfillments have executed of it and 0.0005 more; one request with the status created has been
  -- added, with the actor, the reason and the amount, and item rows that add up to the items.
  pub create_return_transaction-Created :
      (digest : HashInput → Text) (order_id reason : Text) (amount : Option ℕ)
      (items : List ReturnItem) (actor : Actor) (context : CommandContext) (now : ℕ)
      (record_id : Text) (db : Db D)
      → Ensures db
          (create_return_transaction D digest order_id reason amount items actor context now
            record_id)
          (Created order_id reason amount items actor db)
  unfolding create_return_transaction
  create_return_transaction-Created digest order_id reason amount items actor context now record_id
        db =
      Ensures-from_result _ _ λ scope in_scope.
        Ensures-bind (find_order_for_command-first D db order_id scope) λ order db0 (same, found).
          Ensures-bind (check_requested_items-FitsOrder D order.id (map as_requested items) db0)
            λ _ db1 (same1, fits).
              Ensures-bind (check_returned-IsFulfilled D order.id (map as_returned items) db1)
                λ _ db2 (same2, fulfilled).
                  let whole : db2 ≡ db = same2 ∙ (same1 ∙ same) in
                  Ensures-bind (create_return_row-rows order.id reason amount actor db2)
                    λ id db3 (same_id, row, old).
                      Ensures-bind (create_return_items-rows id now items db3) λ _ db4 (kept, sums).
                        Ensures_mono
                          (ending D digest ReturnAction.create now id actor context _ _ record_id _
                            db4)
                          λ answer t (same_answer, (a, b, c, d)). record {
                            scope = scope;
                            in_scope = in_scope;
                            order = order;
                            found = found;
                            fits = rw (sym same) fits;
                            fulfilled = rw (sym same) (rw same1 at fulfilled);
                            same_id = same_answer ∙ rw (sym whole) same_id;
                            row = rw d (rw kept (rw (sym whole) row));
                            written =
                                λ k. rw (same_answer, b) (rw (sym whole) (rw old at (sums k)));
                          }
