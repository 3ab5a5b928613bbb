-- ===== src/Supply/Reservations.antt =====
-- The reservations of supply.service.ts, with their movements of stock.
use sanmarino_crm.Base.{
  ℕ, not, Bool, false, Option, none, some, List, [], ◌∷◌, map, Text, text, text_eq, ◌==◌, ltb,
  if◌then◌else◌,
}
use sanmarino_crm.Records.{Actor, Reservation, Order}
use sanmarino_crm.Errors.{
  not_found_exception, bad_request_exception, conflict_exception, validation_error,
  transition_not_allowed, reservation_not_allowed,
}
use sanmarino_crm.Action.{
  Action, Result, ok, err, ◌>>=◌, ◌>>◌, pure, gets, or_throw, from_result, throw_if, modify,
  transaction,
}
use sanmarino_crm.Database.{Database, Db}
use sanmarino_crm.Status.{
  ReservationStatus, reservation_status_eq, InventoryMovementType, InventoryBucketStatus,
}
use sanmarino_crm.Table.Insert.{create_in}
use sanmarino_crm.Orders.Fulfillments.Stock.{create_movement}
use sanmarino_crm.Supply.{
  MovementInput, Double, numerator, assert_positive_quantity, stored_qty, get_product_or_throw,
  get_warehouse_or_throw, movement_row,
}

-- `expires_at` is `none` where the text is not a date.
pub record CreateReservationItem : Type 0 where
  pub product_id : Text
  pub quantity : Option Double
  pub expires_at : Option ℕ

pub record CreateReservations : Type 0 where
  pub order_id : Text
  pub warehouse_id : Text
  pub items : List CreateReservationItem

-- `CreateReservationInput`; its status is always `active`.
pub record ReservationLine : Type 0 where
  pub order_id : Text
  pub product_id : Text
  pub warehouse_id : Text
  pub quantity : Double
  pub expires_at : ℕ
  pub created_by : Text

abbrev pub is_existing_order : Option Order → Bool
is_existing_order none = false
is_existing_order (some o) = not o.is_deleted

-- A quantity that has passed its check.
abbrev pub checked : Option Double → Double
checked none = record { num = 0; scale = 0 }
checked (some n) = n

unfoldable pub resolve_reservation_expires_at : Option ℕ → ℕ → Result ℕ
resolve_reservation_expires_at none now = err (bad_request_exception validation_error)
resolve_reservation_expires_at (some at) now =
    if ltb now at then ok at else err (bad_request_exception validation_error)

abbrev pub apply_reservation_status_baseline : Reservation → ℕ → Reservation
apply_reservation_status_baseline r now =
    if not (r.status == ReservationStatus.active)
    then r
    else if ltb now r.expires_at
    then r
    else record r { status = ReservationStatus.expired }

abbrev pub released_reservation : ℕ → Reservation → Reservation
released_reservation at r = record r { status = ReservationStatus.released; released_at = some at }

-- `Number(row.qty)`, a quantity of three digits, is what `toFixed(3)` gives back of it.
abbrev pub reservation_create_movement : Reservation → Text → MovementInput
reservation_create_movement r performed_by = record {
  movement_type = InventoryMovementType.reservation_create;
  product_id = r.product_id;
  warehouse_id = r.warehouse_id;
  quantity = r.qty;
  bucket_from = some InventoryBucketStatus.available;
  bucket_to = some InventoryBucketStatus.reserved;
  order_id = some r.order_id;
  reservation_id = some r.id;
  reason = some (text "reservation_create");
  performed_by = performed_by;
}

abbrev pub reservation_release_movement : Reservation → MovementInput
reservation_release_movement r = record {
  movement_type = InventoryMovementType.reservation_release;
  product_id = r.product_id;
  warehouse_id = r.warehouse_id;
  quantity = r.qty;
  bucket_from = some InventoryBucketStatus.reserved;
  bucket_to = some InventoryBucketStatus.available;
  order_id = some r.order_id;
  reservation_id = some r.id;
  reason = some (text "reservation_release");
  performed_by = r.created_by;
}

module _ (D : Database) where
  -- The loop over the items of the payload.
  unfoldable pub reservation_lines :
      CreateReservations
      → Actor
      → ℕ
      → List CreateReservationItem
      → Action (Db D) (List ReservationLine)
  unfolding get_product_or_throw resolve_reservation_expires_at
  reservation_lines input actor now [] = pure []
  reservation_lines input actor now (item ∷ items) = do
    assert_positive_quantity (numerator item.quantity)
    product ← get_product_or_throw D item.product_id
    expires_at ← from_result (resolve_reservation_expires_at item.expires_at now)
    rest ← reservation_lines input actor now items
    pure (
        record {
          order_id = input.order_id;
          product_id = item.product_id;
          warehouse_id = input.warehouse_id;
          quantity = checked item.quantity;
          expires_at = expires_at;
          created_by = actor.user_id;
        }
        ∷ rest)

  abbrev pub new_reservation : ℕ → ReservationLine → Db D → Reservation
  new_reservation now line db = record {
    id = D.reservations.next_id db.reservations;
    order_id = line.order_id;
    product_id = line.product_id;
    warehouse_id = line.warehouse_id;
    qty = stored_qty line.quantity;
    status = ReservationStatus.active;
    expires_at = line.expires_at;
    released_at = none;
    created_by = line.created_by;
    created_at = now;
  }

  unfoldable pub create_reservation_row : Reservation → Action (Db D) (Unit {0})
  unfolding create_in
  create_reservation_row r =
      create_in D.reservations (λ x. x.reservations) (λ t x. record x { reservations = t }) r

  -- The calls in the `$transaction` of `createReservations`.
  unfoldable pub create_reservations : ℕ → List ReservationLine → Action (Db D) (List Reservation)
  unfolding create_reservation_row
  create_reservations now [] = pure []
  create_reservations now (line ∷ lines) = do
    reservation ← gets (new_reservation now line)
    create_reservation_row reservation
    rest ← create_reservations now lines
    pure (reservation ∷ rest)

  unfoldable pub record_reservation_create_movements :
      List Reservation → Text → ℕ → Action (Db D) (Unit {0})
  unfolding create_movement
  record_reservation_create_movements [] performed_by now = pure tt
  record_reservation_create_movements (r ∷ rs) performed_by now =
      assert_positive_quantity (some r.qty)
      >> (create_movement D (movement_row D (reservation_create_movement r performed_by) now)
          >> record_reservation_create_movements rs performed_by now)

  -- `createReservationsForOrder`: it starts at `now` and answers at `later`.
  unfoldable pub create_reservations_for_order :
      CreateReservations → Actor → ℕ → ℕ → Action (Db D) (List Reservation)
  unfolding get_warehouse_or_throw reservation_lines create_reservations
      record_reservation_create_movements
  create_reservations_for_order input actor now later = do
    order ← gets (λ (db : Db D). D.orders.find_first (λ o. o.id == input.order_id) db.orders)
    throw_if (not (is_existing_order order)) (bad_request_exception reservation_not_allowed)
    depot ← get_warehouse_or_throw D input.warehouse_id
    lines ← reservation_lines input actor now input.items
    created ← transaction (create_reservations now lines)
    record_reservation_create_movements created actor.user_id now
    pure (map (λ (r : Reservation). apply_reservation_status_baseline r later) created)

  abbrev pub find_reservation : Text → Db D → Option Reservation
  find_reservation id db = D.reservations.find_first (λ r. r.id == id) db.reservations

  abbrev pub update_reservation : Text → (Reservation → Reservation) → Db D → Db D
  update_reservation id change db = record db {
    reservations = D.reservations.update id change db.reservations;
  }

  -- `releaseReservationInternal`: the row is looked at at `now` and released at `at`.
  unfoldable pub release_reservation_internal : Text → ℕ → ℕ → Action (Db D) Reservation
  unfolding create_movement
  release_reservation_internal id now at = do
    found ← gets (find_reservation id)
    current ← or_throw found not_found_exception
    throw_if
        (not ((apply_reservation_status_baseline current now).status == ReservationStatus.active))
        (conflict_exception transition_not_allowed)
    modify (update_reservation id (released_reservation at))
    assert_positive_quantity (some current.qty)
    create_movement D (movement_row D (reservation_release_movement current) at)
    pure (apply_reservation_status_baseline (released_reservation at current) at)
