-- ===== src/Supply/Stock.antt =====
-- What the movements of stock say about a bucket, and what the reservations of
-- supply.service.ts say about the reserved one.
pub mod Rows
pub mod Reserve
pub mod Transfer
pub mod Release
pub mod Calls
pub mod Refines
use sanmarino_crm.Base.{
  ℕ, ◌+◌, ◌<◌, ◌≡◌, refl, Bool, false, ◌&&◌, Option, none, some, List, ◌∷◌, Text, text_eq, ◌==◌,
  total, Distinct,
}
use sanmarino_crm.Records.{Reservation, InventoryMovement}
use sanmarino_crm.Status.{
  InventoryBucketStatus, inventory_bucket_status_eq, ReservationStatus, reservation_status_eq,
}
use sanmarino_crm.Action.Leaves.{Leaves, Leaves-gets, Leaves-or_throw_end}
use sanmarino_crm.Action.Succeeds.{Succeeds}
use sanmarino_crm.Database.{Database, Db, any-unconstrained}
use sanmarino_crm.Table.Insert.{Succeeds-create_in}
use sanmarino_crm.Orders.Fulfillments.Stock.{create_movement}
use sanmarino_crm.Orders.Fulfillments.Ledger.{reservation_rows, movement_rows, Added}
use sanmarino_crm.Supply.{get_product_or_throw, get_warehouse_or_throw}

abbrev pub is_bucket : InventoryBucketStatus → Option InventoryBucketStatus → Bool
is_bucket bucket none = false
is_bucket bucket (some b) = b == bucket

abbrev pub is_of : Text → Text → InventoryMovement → Bool
is_of product_id warehouse_id m = m.product_id == product_id && m.warehouse_id == warehouse_id

-- What has come into a bucket of a product and a warehouse, and what has gone out of it.
abbrev pub entered : InventoryBucketStatus → Text → Text → List InventoryMovement → ℕ
entered bucket p w = total (λ m. is_bucket bucket m.bucket_to && is_of p w m) (λ m. m.qty)

abbrev pub taken : InventoryBucketStatus → Text → Text → List InventoryMovement → ℕ
taken bucket p w = total (λ m. is_bucket bucket m.bucket_from && is_of p w m) (λ m. m.qty)

abbrev pub is_for : Text → Text → Reservation → Bool
is_for product_id warehouse_id r = r.product_id == product_id && r.warehouse_id == warehouse_id

-- The quantity of the reservations whose row is active.
abbrev pub held : Text → Text → List Reservation → ℕ
held p w = total (λ r. r.status == ReservationStatus.active && is_for p w r) (λ r. r.qty)

-- The reserved bucket holds just what the active reservations ask for.
pub record IsReserved (reservations : List Reservation) (movements : List InventoryMovement)
    : Type 0 where
  pub ids : Distinct (λ r. r.id) reservations
  pub balanced :
      (p w : Text)
      → taken InventoryBucketStatus.reserved p w movements + held p w reservations
        ≡ entered InventoryBucketStatus.reserved p w movements

module _ (D : Database) where
  abbrev pub Reserved : Db D → Type 0
  Reserved db = IsReserved (reservation_rows D db) (movement_rows D db)

  pub create_movement-Succeeds :
      (row : Db D → InventoryMovement) (db : Db D)
      → Succeeds db (create_movement D row) (λ _ t. Added D db (row db) t)
  unfolding create_movement
  create_movement-Succeeds row db =
      let h =
        Succeeds-create_in D.inventory_movements (λ (x : Db D). x.inventory_movements)
          (λ t x. record x { inventory_movements = t }) (row db) db (λ _ t. Added D db (row db) t)
          (any-unconstrained (row db) _) (λ t e. (refl, e)) in
      record { value = h.value; after = h.after; run = h.run; holds = h.holds }

  pub get_product_or_throw-reads :
      (id : Text) (db : Db D) → Leaves db (get_product_or_throw D id) (λ t. t ≡ db)
  unfolding get_product_or_throw
  get_product_or_throw-reads id db = Leaves-gets _ _ (Leaves-or_throw_end _ _ refl)

  pub get_warehouse_or_throw-reads :
      (id : Text) (db : Db D) → Leaves db (get_warehouse_or_throw D id) (λ t. t ≡ db)
  unfolding get_warehouse_or_throw
  get_warehouse_or_throw-reads id db = Leaves-gets _ _ (Leaves-or_throw_end _ _ refl)
