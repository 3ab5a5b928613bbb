-- ===== src/Supply/Stock/Release.antt =====
-- The release of a reservation (`releaseReservationInternal`) keeps the reserved bucket in step with
-- the reservations.
use mathlib.Core.Path.{subst}
use sanmarino_crm.Base.{
  ℕ, ◌+◌, ◌≡◌, refl, sym, ◌∙◌, ◌&&◌, true, false, some, Text, text_eq, ◌==◌, not, if◌then◌else◌,
  total, Distinct, change-Distinct, total-change_found, Bool-cases, not-false, inl, inr, arith,
}
use sanmarino_crm.Records.{Reservation}
use sanmarino_crm.Status.{inventory_bucket_status_eq, ReservationStatus, reservation_status_eq}
use sanmarino_crm.Action.Leaves.{
  Leaves, Leaves-gets, Leaves-throw_if, Leaves-or_throw, Leaves-modify, Leaves-run, Leaves-pure,
}
use sanmarino_crm.Database.{Database, Db}
use sanmarino_crm.Orders.Fulfillments.Ledger.{reservation_rows, Added}
use sanmarino_crm.Supply.{movement_row}
use sanmarino_crm.Supply.Reservations.{
  apply_reservation_status_baseline, released_reservation, reservation_release_movement,
  find_reservation, update_reservation, release_reservation_internal,
}
use sanmarino_crm.Supply.Stock.{held, is_for, Reserved, create_movement-Succeeds}

-- A row that reads as active is stored as active.
active_row :
    (r : Reservation) (now : ℕ)
    → not ((apply_reservation_status_baseline r now).status == ReservationStatus.active) ≡ false
    → (r.status == ReservationStatus.active) ≡ true
unfolding reservation_status_eq
active_row r now h = elim (Bool-cases (r.status == ReservationStatus.active)) [
  | inl t ↦ t
  | inr n ↦
      subst (λ (x : Reservation). (x.status == ReservationStatus.active) ≡ true) (unread r now n)
        (not-false _ h)
]
  where
    unread :
        (r : Reservation) (now : ℕ)
        → (r.status == ReservationStatus.active) ≡ false
        → apply_reservation_status_baseline r now ≡ r
    unread r now n = rw n refl

module _ (D : Database) where
  -- The reservation that was found is not held any more.
  released_row :
      (id : Text) (at : ℕ) (r : Reservation) (db : Db D)
      → find_reservation D id db ≡ some r
      → (r.status == ReservationStatus.active) ≡ true
      → Reserved D db
      → (p w : Text)
      → held p w (reservation_rows D (update_reservation D id (released_reservation at) db))
          + (if is_for p w r then r.qty else 0)
        ≡ held p w (reservation_rows D db)
  unfolding reservation_status_eq
  released_row id at r db found active h p w =
      let e = sym (D.reservations.find_first_lem (λ x. x.id == id) db.reservations) ∙ found in
      let moved =
        total-change_found (λ (x : Reservation). x.id)
          (λ x. x.status == ReservationStatus.active && is_for p w x) (λ x. x.qty)
          (released_reservation at) id (reservation_rows D db) h.ids e in
      rw (D.reservations.update_lem id (released_reservation at) db.reservations)
        (ground (arith, moved, active))

  released-Distinct :
      (id : Text) (at : ℕ) (db : Db D)
      → Reserved D db
      → Distinct
          (λ r. r.id)
          (reservation_rows D (update_reservation D id (released_reservation at) db))
  released-Distinct id at db h =
      rw (D.reservations.update_lem id (released_reservation at) db.reservations) (
        change-Distinct (λ r. r.id) _ (released_reservation at) (λ _. refl) (reservation_rows D db)
          h.ids)

  -- The movement out of the reserved bucket makes up for it.
  released_on :
      (r : Reservation) (at : ℕ) (db db1 t : Db D)
      → Reserved D db
      → db1.inventory_movements ≡ db.inventory_movements
      → ((p w : Text)
          → held p w (reservation_rows D db1) + (if is_for p w r then r.qty else 0)
            ≡ held p w (reservation_rows D db))
      → Distinct (λ r. r.id) (reservation_rows D db1)
      → Added D db1 (movement_row D (reservation_release_movement r) at db1) t
      → Reserved D t
  unfolding total inventory_bucket_status_eq
  released_on r at db db1 t h still row ids1 (same, rows) = record {
    ids = rw same ids1;
    balanced = λ p w. rw (rows, same, still) (ground (arith, row p w, h.balanced p w));
  }

  pub release_reservation_internal-Reserved :
      (id : Text) (now at : ℕ) (db : Db D)
      → Reserved D db
      → Leaves db (release_reservation_internal D id now at) (λ t. Reserved D t)
  unfolding release_reservation_internal
  release_reservation_internal-Reserved id now at db h = Leaves-gets _ _ (
      Leaves-or_throw _ _ _ h λ r found.
        Leaves-throw_if _ _ _ (λ _. h)
          λ active.
            let row = released_row id at r db found (active_row r now active) h in
            let ids = released-Distinct id at db h in
            let db1 = update_reservation D id (released_reservation at) db in
            Leaves-modify _ _ (
              Leaves-throw_if _ _ _
                (λ empty. record {
                  ids = ids;
                  balanced = λ p w. ground (arith, row p w, h.balanced p w, empty);
                })
                λ positive.
                  let moved =
                    create_movement-Succeeds D (movement_row D (reservation_release_movement r) at)
                      db1 in
                  Leaves-run _ _ moved.run (
                    Leaves-pure _
                      (released_on r at db db1 moved.after h refl row ids moved.holds))))
