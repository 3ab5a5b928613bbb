-- ===== src/Orders/Fulfillments/Inserted.antt =====
-- What the checks and the inserts of `createFulfillment` leave.
use sanmarino_crm.Base.{
  ℕ, ◌+◌, ◌*◌, ◌/◌, ◌≡◌, refl, ◌∙◌, Bool, ◌&&◌, Option, none, some, List, [], ◌∷◌, map, Text,
  text_eq, ◌==◌, ==-refl, contains, total, Mem, Mem-select, All, All-mono, arith,
}
use mathlib.Core.Path.{subst}
use sanmarino_crm.Records.{Actor, Order, OrderItem, Fulfillment, FulfillmentItem}
use sanmarino_crm.Action.{◌>>◌, pure, from_result}
use sanmarino_crm.Action.Ensures.{
  Ensures, Ensures-pure, Ensures-bind, Ensures-gets, Ensures-or_throw, Ensures_mono,
}
use sanmarino_crm.Database.{Database, Db}
use sanmarino_crm.Table.Insert.{create_in, Ensures-create_in}
use sanmarino_crm.Orders.Fulfillments.{
  CreateFulfillmentInput, NormalizedItem, qty_by_id, check_items, refused, check_requested_items,
  check_delivery_task, check_pickup_window,
}
use sanmarino_crm.Orders.Fulfillments.Create.{
  new_fulfillment, create_item, create_items, new_item, create_fulfillment_row,
}
use sanmarino_crm.Orders.Fulfillments.Fits.{Fits, check_items-Fits}
use sanmarino_crm.Errors.{Exception}

abbrev pub is_item_of : Text → Text → FulfillmentItem → Bool
is_item_of id k i = i.fulfillment_id == id && i.order_item_id == k

module _ (D : Database) where
  -- The item is backed by an item of the order.
  abbrev pub FitsOrder : Db D → Text → NormalizedItem → Type 0
  FitsOrder db order_id i =
      (f : Fits (D.order_items.rows db.order_items) i) × (f.row.order_id ≡ order_id)

  from_query :
      (db : Db D) (order_id : Text) (ids : List Text) (i : NormalizedItem)
      → Fits
          (D.order_items.find_many
            (λ r. r.order_id == order_id && contains ids r.id)
            db.order_items)
          i
      → FitsOrder db order_id i
  from_query db order_id ids i f =
      let p = λ (r : OrderItem). r.order_id == order_id && contains ids r.id in
      let (member, test) =
        Mem-select p (D.order_items.rows db.order_items)
          (subst (Mem f.row) (D.order_items.find_many_lem p db.order_items) f.member) in
      (
        record { row = f.row; member = member; same = f.same; bound = f.bound },
        ground (arith, test),
      )

  pub check_requested_items-FitsOrder :
      (order_id : Text) (items : List NormalizedItem) (db : Db D)
      → Ensures db
          (check_requested_items D order_id items)
          (λ _ t. (t ≡ db) × All (FitsOrder db order_id) items)
  unfolding check_requested_items from_result
  check_requested_items-FitsOrder order_id [] db = Ensures-pure tt (refl, tt)
  check_requested_items-FitsOrder order_id (i ∷ is) db =
      Ensures-gets _ _ (passed (check_items (qty_by_id [] rows) (i ∷ is)) refl)
    where
      ids : List Text
      ids = map (λ (i : NormalizedItem). i.order_item_id) (i ∷ is)

      rows : List OrderItem
      rows =
          D.order_items.find_many (λ r. r.order_id == order_id && contains ids r.id) db.order_items

      passed :
          (x : Option Exception)
          → check_items (qty_by_id [] rows) (i ∷ is) ≡ x
          → Ensures db
              (from_result (refused x))
              (λ _ t. (t ≡ db) × All (FitsOrder db order_id) (i ∷ is))
      passed none e = record {
        at = (
          refl,
          All-mono (Fits rows) (FitsOrder db order_id) (i ∷ is) (from_query db order_id ids)
              (check_items-Fits rows (i ∷ is) e),
        );
      }
      passed (some x) e = record { at = tt }

  pub check_delivery_task-same :
      (order_id : Text) (id : Option Text) (db : Db D)
      → Ensures db (check_delivery_task D order_id id) (λ _ t. t ≡ db)
  unfolding check_delivery_task
  check_delivery_task-same order_id none db = Ensures-pure tt refl
  check_delivery_task-same order_id (some id) db =
      Ensures-gets _ _ (Ensures-or_throw _ _ _ λ task e. Ensures-pure tt refl)

  pub check_pickup_window-same :
      (id : Option Text) (db : Db D) → Ensures db (check_pickup_window D id) (λ _ t. t ≡ db)
  unfolding check_pickup_window
  check_pickup_window-same none db = Ensures-pure tt refl
  check_pickup_window-same (some id) db =
      Ensures-gets _ _ (Ensures-or_throw _ _ _ λ window e. Ensures-pure tt refl)

  abbrev pub fulfillment_rows : Db D → List Fulfillment
  fulfillment_rows db = D.fulfillments.rows db.fulfillments

  abbrev pub item_rows : Db D → List FulfillmentItem
  item_rows db = D.fulfillment_items.rows db.fulfillment_items

  pub create_fulfillment_row-rows :
      (payload : CreateFulfillmentInput) (order : Order) (actor : Actor) (db : Db D)
      → Ensures db (create_fulfillment_row D payload order actor) (λ id t.
        (id ≡ (new_fulfillment D payload order actor db).id)
        × (fulfillment_rows t ≡ new_fulfillment D payload order actor db ∷ fulfillment_rows db)
        × (item_rows t ≡ item_rows db))
  unfolding create_fulfillment_row
  create_fulfillment_row-rows payload order actor db = record { at = added.at }
    where
      row : Fulfillment
      row = new_fulfillment D payload order actor db

      added :
          Ensures db
            (create_in D.fulfillments
                (λ (x : Db D). x.fulfillments)
                (λ t x. record x { fulfillments = t })
                row
              >> pure row.id)
            (λ id t.
              (id ≡ row.id)
              × (fulfillment_rows t ≡ row ∷ fulfillment_rows db)
              × (item_rows t ≡ item_rows db))
      added =
          Ensures-bind
            (Ensures-create_in D.fulfillments (λ x. x.fulfillments)
              (λ t x. record x { fulfillments = t }) row db
              (λ _ t.
                (fulfillment_rows t ≡ row ∷ fulfillment_rows db) × (item_rows t ≡ item_rows db))
              (λ t e. (e, refl)))
            λ _ t h. Ensures-pure row.id (refl, h.0, h.1)

  pub create_items-rows :
      (id : Text) (now : ℕ) (items : List NormalizedItem) (db : Db D)
      → Ensures db (create_items D id now items) (λ _ t.
        (t.fulfillments ≡ db.fulfillments)
        × ((k : Text)
            → total (is_item_of id k) (λ i. i.qty) (item_rows t)
              ≡ total (λ i. i.order_item_id == k) (λ i. (i.qty + 500) / 1000 * 1000) items
                + total (is_item_of id k) (λ i. i.qty) (item_rows db)))
  unfolding create_items create_item total
  create_items-rows id now [] db = Ensures-pure tt (refl, λ k. omega arith)
  create_items-rows id now (i ∷ is) db =
      Ensures-bind
        {R = λ _ t.
          (t.fulfillments ≡ db.fulfillments)
          × (item_rows t ≡ new_item D id now i db ∷ item_rows db)}
        (record {
          at =
              (Ensures-create_in D.fulfillment_items (λ x. x.fulfillment_items)
                (λ t x. record x { fulfillment_items = t }) (new_item D id now i db) db
                (λ _ t.
                  (t.fulfillments ≡ db.fulfillments)
                  × (item_rows t ≡ new_item D id now i db ∷ item_rows db))
                (λ t e. (refl, e))).at;
        })
        λ _ db1 (same, rows).
          Ensures_mono (create_items-rows id now is db1)
            λ _ t (same1, sums). (same1 ∙ same, λ k. rw (sums k, rows) (ground (arith, ==-refl id)))
