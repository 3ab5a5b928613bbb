-- ===== src/Supply/Stock/Refines.antt =====
-- `createReservationsForOrder` against an abstract view of the stock: the quantity reserved of each
-- product in each warehouse.
use sanmarino_crm.Base.{ℕ, ◌+◌, ◌<◌, ◌≡◌, true, ◌&&◌, some, List, Text, text_eq, ◌==◌, total, All}
use sanmarino_crm.Records.{Product, Warehouse}
use sanmarino_crm.Action.Ensures.{Ensures}
use sanmarino_crm.Action.Succeeds.{Succeeds}
use sanmarino_crm.Database.{Database, Db}
use sanmarino_crm.Orders.Fulfillments.Ledger.{reservation_rows}
use sanmarino_crm.Supply.{Double, stored_qty}
use sanmarino_crm.Supply.Reservations.{
  checked, is_existing_order, CreateReservationItem, CreateReservations, ReservationLine,
}
use sanmarino_crm.Supply.Stock.{held}
use sanmarino_crm.Supply.Stock.Rows.{LineIsPositive}

-- The abstract view: by product and warehouse.
abbrev pub ReservedStock : Type 0
ReservedStock = Text → Text → ℕ

abbrev pub wanted : Text → Text → Text → List CreateReservationItem → ℕ
wanted warehouse_id p w =
    total (λ i. i.product_id == p && warehouse_id == w) (λ i. stored_qty (checked i.quantity))

-- What a payload adds to it.
abbrev pub reserve_stock : CreateReservations → ReservedStock → ReservedStock
reserve_stock input stock p w = wanted input.warehouse_id p w input.items + stock p w

abbrev line_total : Text → Text → List ReservationLine → ℕ
line_total p w = total (λ l. l.product_id == p && l.warehouse_id == w) (λ l. stored_qty l.quantity)

module _ (D : Database) where
  abbrev pub reserved_stock : Db D → ReservedStock
  reserved_stock db p w = held p w (reservation_rows D db)

  -- An item that can be reserved at `now`.
  pub record IsAcceptable (db : Db D) (now : ℕ) (item : CreateReservationItem) : Type 0 where
    pub number : Double
    pub quantity : item.quantity ≡ some number
    pub positive : 0 < number.num
    pub least : 0 < stored_qty number
    pub product : Product
    pub found : D.products.find_first (λ p. p.id == item.product_id) db.products ≡ some product
    pub at : ℕ
    pub expires : item.expires_at ≡ some at
    pub later : now < at

  pub record IsAcceptablePayload (db : Db D) (now : ℕ) (input : CreateReservations) : Type 0 where
    pub order :
        is_existing_order (D.orders.find_first (λ o. o.id == input.order_id) db.orders) ≡ true
    pub warehouse : Warehouse
    pub found :
        D.warehouses.find_first (λ w. w.id == input.warehouse_id) db.warehouses ≡ some warehouse
    pub items : All (IsAcceptable db now) input.items

  -- The lines that the loop makes of the items.
  abbrev LinesFor : Db D → Text → List CreateReservationItem → List ReservationLine → Db D → Type 0
  LinesFor db warehouse_id items lines t =
      (t ≡ db)
      × All LineIsPositive lines
      × ((p w : Text) → line_total p w lines ≡ wanted warehouse_id p w items)
