-- ===== src/Supply/Quarantine.antt =====
-- The transfers to quarantine and back of supply.service.ts.
use sanmarino_crm.Base.{ℕ, Option, none, some, List, [], ◌∷◌, Text}
use sanmarino_crm.Records.{Actor, RoleCode, warehouse, InventoryMovement}
use sanmarino_crm.Action.{Action, ◌>>=◌, ◌>>◌, pure, gets}
use sanmarino_crm.Database.{Database, Db}
use sanmarino_crm.Status.{InventoryMovementType, InventoryBucketStatus}
use sanmarino_crm.Orders.Fulfillments.Stock.{create_movement}
use sanmarino_crm.Payments.Normalize.{trim}
use sanmarino_crm.Supply.{
  MovementInput, Double, numerator, stored_qty, assert_access, assert_positive_quantity,
  get_product_or_throw, get_warehouse_or_throw, movement_row,
}
use sanmarino_crm.Supply.Reservations.{checked}

abbrev pub inventory_quarantine_role_codes : List RoleCode
inventory_quarantine_role_codes = warehouse ∷ []

pub record QuarantineMovement : Type 0 where
  pub product_id : Text
  pub warehouse_id : Text
  pub quantity : Option Double
  pub reason : Option Text

-- `text || null`
abbrev pub unless_empty : Text → Option Text
unless_empty [] = none
unless_empty (c ∷ t) = some (c ∷ t)

abbrev pub trimmed : Option Text → Option Text
trimmed none = none
trimmed (some t) = unless_empty (trim t)

module _ (D : Database) where
  unfoldable pub to_quarantine_movement_input :
      InventoryMovementType
      → QuarantineMovement
      → Actor
      → InventoryBucketStatus
      → InventoryBucketStatus
      → Action (Db D) MovementInput
  unfolding get_product_or_throw get_warehouse_or_throw
  to_quarantine_movement_input movement_type input actor bucket_from bucket_to = do
    assert_positive_quantity (numerator input.quantity)
    product ← get_product_or_throw D input.product_id
    depot ← get_warehouse_or_throw D input.warehouse_id
    pure record {
      movement_type = movement_type;
      product_id = input.product_id;
      warehouse_id = input.warehouse_id;
      quantity = stored_qty (checked input.quantity);
      bucket_from = some bucket_from;
      bucket_to = some bucket_to;
      order_id = none;
      reservation_id = none;
      reason = trimmed input.reason;
      performed_by = actor.user_id;
    }

  unfoldable pub create_inventory_movement : MovementInput → ℕ → Action (Db D) InventoryMovement
  unfolding create_movement
  create_inventory_movement input now = do
    movement ← gets (movement_row D input now)
    create_movement D (movement_row D input now)
    pure movement

  unfoldable pub transfer_to_quarantine :
      QuarantineMovement → Actor → ℕ → Action (Db D) InventoryMovement
  unfolding to_quarantine_movement_input create_inventory_movement
  transfer_to_quarantine input actor now = do
    assert_access inventory_quarantine_role_codes actor
    movement ←
        to_quarantine_movement_input InventoryMovementType.transfer_to_quarantine input actor
          InventoryBucketStatus.available InventoryBucketStatus.quarantine
    create_inventory_movement movement now

  unfoldable pub release_from_quarantine :
      QuarantineMovement → Actor → ℕ → Action (Db D) InventoryMovement
  unfolding to_quarantine_movement_input create_inventory_movement
  release_from_quarantine input actor now = do
    assert_access inventory_quarantine_role_codes actor
    movement ←
        to_quarantine_movement_input InventoryMovementType.release_from_quarantine input actor
          InventoryBucketStatus.quarantine InventoryBucketStatus.available
    create_inventory_movement movement now
