-- ===== src/Supply/Stock/Reserve.antt =====
-- Reservations made for an order (`createReservationsForOrder`) keep the reserved bucket in step.
use sanmarino_crm.Supply.Stock.Rows.{
  IsStorable, RowIsPositive, asked, reservation_lines-reads, reservation_lines-positive, Written,
  create_reservations-Succeeds,
}
use sanmarino_crm.Base.{ℕ, ◌+◌, ◌≡◌, refl, ◌∙◌, List, [], ◌∷◌, Text, text_eq, total, All, arith}
use sanmarino_crm.Records.{Actor, Reservation}
use sanmarino_crm.Status.{InventoryBucketStatus, inventory_bucket_status_eq, reservation_status_eq}
use sanmarino_crm.Action.Ensures.{Ensures-elim}
use sanmarino_crm.Action.Leaves.{
  Leaves, Leaves-gets, Leaves-throw_if, Leaves-reads, Leaves-run, Leaves-pure,
}
use sanmarino_crm.Action.Succeeds.{
  Succeeds, Succeeds-pure, Succeeds-bind, Succeeds-throw_if, Succeeds-transaction,
}
use sanmarino_crm.Database.{Database, Db}
use sanmarino_crm.Orders.Fulfillments.Ledger.{movement_rows}
use sanmarino_crm.Supply.{movement_row}
use sanmarino_crm.Supply.Reservations.{
  CreateReservations, record_reservation_create_movements, reservation_create_movement,
  create_reservations_for_order,
}
use sanmarino_crm.Supply.Stock.{
  entered, taken, Reserved, create_movement-Succeeds, get_warehouse_or_throw-reads,
}

module _ (D : Database) where
  -- Each reservation has its movement into the reserved bucket, and nothing else has changed.
  pub record Recorded (db : Db D) (created : List Reservation) (t : Db D) : Type 0 where
    pub reservations : t.reservations ≡ db.reservations
    pub same_taken :
        (p w : Text)
        → taken InventoryBucketStatus.reserved p w (movement_rows D t)
          ≡ taken InventoryBucketStatus.reserved p w (movement_rows D db)
    pub more_entered :
        (p w : Text)
        → entered InventoryBucketStatus.reserved p w (movement_rows D t)
          ≡ asked p w created + entered InventoryBucketStatus.reserved p w (movement_rows D db)

  Recorded-cons :
      (r : Reservation) (rest : List Reservation) (u : Text) (now : ℕ) (db db1 t : Db D)
      → db1.reservations ≡ db.reservations
      → movement_rows D db1
        ≡ movement_row D (reservation_create_movement r u) now db ∷ movement_rows D db
      → Recorded db1 rest t
      → Recorded db (r ∷ rest) t
  unfolding total inventory_bucket_status_eq
  Recorded-cons r rest u now db db1 t same rows more = record {
    reservations = more.reservations ∙ same;
    same_taken = λ p w. more.same_taken p w ∙ rw rows (ground arith);
    more_entered = λ p w. rw (more.more_entered p w, rows) (ground arith);
  }

  pub record_movements-Succeeds :
      (created : List Reservation) (u : Text) (now : ℕ) (db : Db D)
      → All RowIsPositive created
      → Succeeds db
          (record_reservation_create_movements D created u now)
          (λ _ t. Recorded db created t)
  unfolding record_reservation_create_movements total
  record_movements-Succeeds [] u now db h =
      Succeeds-pure tt
        record { reservations = refl; same_taken = λ p w. refl; more_entered = λ p w. omega arith }
  record_movements-Succeeds (r ∷ rs) u now db (h, all) = Succeeds-throw_if _ _ (ground (arith, h)) (
      Succeeds-bind
        (create_movement-Succeeds D (movement_row D (reservation_create_movement r u) now) db)
        λ _ db1 (same, rows).
          let rest = record_movements-Succeeds rs u now db1 all in
          record {
            value = rest.value;
            after = rest.after;
            run = rest.run;
            holds = Recorded-cons r rs u now db db1 rest.after same rows rest.holds;
          })

  created-Reserved :
      (created : List Reservation) (db db1 t : Db D)
      → Reserved D db
      → Written D db created db1
      → Recorded db1 created t
      → Reserved D t
  created-Reserved created db db1 t h one two = record {
    ids = rw two.reservations one.ids;
    balanced = λ p w.
        rw
          (
            two.same_taken p w,
            two.more_entered p w,
            two.reservations,
            one.movements,
            one.held_more p w,
          )
          (omega (arith, h.balanced p w));
  }

  pub create_reservations_for_order-Reserved :
      (input : CreateReservations) (actor : Actor) (now later : ℕ) (db : Db D)
      → All IsStorable input.items
      → Reserved D db
      → Leaves db (create_reservations_for_order D input actor now later) (λ t. Reserved D t)
  unfolding create_reservations_for_order
  create_reservations_for_order-Reserved input actor now later db storable h = Leaves-gets _ _ (
      Leaves-throw_if _ _ _ (λ _. h)
        λ _. Leaves-reads _ _ (get_warehouse_or_throw-reads D input.warehouse_id db) h λ _ _.
          Leaves-reads _ _ (reservation_lines-reads D input actor now input.items db) h λ lines e.
            let positive =
              Ensures-elim (reservation_lines-positive D input actor now input.items db storable)
                e in
            let made =
              Succeeds-transaction _ (create_reservations-Succeeds D now lines db h.ids positive) in
            let moved =
              record_movements-Succeeds made.value actor.user_id now made.after
                made.holds.positive in
            Leaves-run _ _ made.run (
              Leaves-run _ _ moved.run (
                Leaves-pure _ (
                  created-Reserved made.value db made.after moved.after h made.holds moved.holds))))
