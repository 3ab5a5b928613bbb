-- ===== src/Supply.antt =====
-- apps/api/src/modules/supply/supply.service.ts: what its commands share, with the rows that
-- supply.repository.ts writes for them. No command runs in a transaction, and each reads the clock
-- for itself. A quantity is a number of millionths.
pub mod Locks
pub mod Quarantine
pub mod Reservations
pub mod Requests
pub mod Stock
use sanmarino_crm.Base.{
  ℕ, ◌+◌, ◌*◌, ◌/◌, ◌^◌, Bool, false, not, Option, none, some, List, [], ◌∷◌, Text, text_eq, ◌==◌,
  any, contains, ltb,
}
use sanmarino_crm.Records.{Actor, RoleCode, role_code_eq, Product, Warehouse, InventoryMovement}
use sanmarino_crm.Errors.{
  not_found_exception, bad_request_exception, forbidden_exception, validation_error, access_denied,
}
use sanmarino_crm.Action.{Action, ◌>>=◌, gets, or_throw, throw_if}
use sanmarino_crm.Database.{Database, Db}
use sanmarino_crm.Status.{InventoryMovementType, InventoryBucketStatus}

-- `actor.roleCodes.some(roleCode => codes.has(roleCode))`
abbrev pub has_role : List RoleCode → Actor → Bool
has_role codes actor = any (contains codes) actor.role_codes

abbrev pub assert_access : {S : Type 0} → List RoleCode → Actor → Action S (Unit {0})
assert_access codes actor =
    throw_if (not (has_role codes actor)) (forbidden_exception access_denied)

-- `Number.isFinite(quantity) && quantity > 0`; `none` is a number that is negative or not finite.
abbrev pub is_positive : Option ℕ → Bool
is_positive none = false
is_positive (some n) = ltb 0 n

abbrev pub assert_positive_quantity : {S : Type 0} → Option ℕ → Action S (Unit {0})
assert_positive_quantity quantity =
    throw_if (not (is_positive quantity)) (bad_request_exception validation_error)

-- A `number` that is finite and not negative: `num / 2 ^ scale`.
pub record Double : Type 0 where
  pub num : ℕ
  pub scale : ℕ

-- What `assert_positive_quantity` looks at: a number is positive when its numerator is.
abbrev pub numerator : Option Double → Option ℕ
numerator none = none
numerator (some d) = some d.num

-- `quantity.toFixed(3)`, what the column keeps, in millionths: the multiple of a thousandth next to
-- the number itself, and the larger where two are as near.
unfoldable pub stored_qty : Double → ℕ
stored_qty d = (d.num * 2000 + 2 ^ d.scale) / (2 * 2 ^ d.scale) * 1000

-- The columns of a movement that a command chooses, its quantity as `toFixed(3)` makes it.
pub record MovementInput : Type 0 where
  pub movement_type : InventoryMovementType
  pub product_id : Text
  pub warehouse_id : Text
  pub quantity : ℕ
  pub bucket_from : Option InventoryBucketStatus
  pub bucket_to : Option InventoryBucketStatus
  pub order_id : Option Text
  pub reservation_id : Option Text
  pub reason : Option Text
  pub performed_by : Text

module _ (D : Database) where
  unfoldable pub get_product_or_throw : Text → Action (Db D) Product
  get_product_or_throw id = do
    found ← gets (λ (db : Db D). D.products.find_first (λ p. p.id == id) db.products)
    or_throw found not_found_exception

  unfoldable pub get_warehouse_or_throw : Text → Action (Db D) Warehouse
  get_warehouse_or_throw id = do
    found ← gets (λ (db : Db D). D.warehouses.find_first (λ w. w.id == id) db.warehouses)
    or_throw found not_found_exception

  -- The row that `createInventoryMovement` writes.
  abbrev pub movement_row : MovementInput → ℕ → Db D → InventoryMovement
  movement_row input now db = record {
    id = D.inventory_movements.next_id db.inventory_movements;
    movement_type = input.movement_type;
    product_id = input.product_id;
    warehouse_id = input.warehouse_id;
    qty = input.quantity;
    bucket_from = input.bucket_from;
    bucket_to = input.bucket_to;
    order_id = input.order_id;
    fulfillment_id = none;
    return_request_id = none;
    reservation_id = input.reservation_id;
    reason = input.reason;
    performed_by = input.performed_by;
    created_at = now;
  }
