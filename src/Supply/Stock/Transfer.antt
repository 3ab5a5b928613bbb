-- ===== src/Supply/Stock/Transfer.antt =====
-- The transfers to quarantine and back keep the reserved bucket in step with the reservations.
use sanmarino_crm.Base.{ℕ, ◌≡◌, refl, false, some, text_eq, total, arith}
use sanmarino_crm.Records.{Actor}
use sanmarino_crm.Status.{
  InventoryMovementType, InventoryBucketStatus, inventory_bucket_status_eq, reservation_status_eq,
}
use sanmarino_crm.Action.Ensures.{
  Ensures, Ensures-pure, Ensures-bind, Ensures-throw_if, Ensures_of_state, Ensures-elim,
}
use sanmarino_crm.Action.Leaves.{
  Leaves, Leaves-gets, Leaves-throw_if, Leaves-reads, Leaves-run, Leaves-pure,
}
use sanmarino_crm.Database.{Database, Db}
use sanmarino_crm.Orders.Fulfillments.Ledger.{Added}
use sanmarino_crm.Supply.{MovementInput, movement_row}
use sanmarino_crm.Supply.Quarantine.{
  QuarantineMovement, to_quarantine_movement_input, create_inventory_movement,
  transfer_to_quarantine, release_from_quarantine,
}
use sanmarino_crm.Supply.Stock.{
  is_bucket, Reserved, create_movement-Succeeds, get_product_or_throw-reads,
  get_warehouse_or_throw-reads,
}

module _ (D : Database) where
  elsewhere_on :
      (m : MovementInput) (now : ℕ) (db t : Db D)
      → is_bucket InventoryBucketStatus.reserved m.bucket_from ≡ false
      → is_bucket InventoryBucketStatus.reserved m.bucket_to ≡ false
      → Reserved D db
      → Added D db (movement_row D m now db) t
      → Reserved D t
  unfolding total
  elsewhere_on m now db t from to h (same, rows) = record {
    ids = rw same h.ids;
    balanced = λ p w. rw (rows, same) (ground (arith, from, to, h.balanced p w));
  }

  to_quarantine_movement_input-reads :
      (kind : InventoryMovementType) (input : QuarantineMovement) (actor : Actor)
      (from to : InventoryBucketStatus) (db : Db D)
      → Leaves db (to_quarantine_movement_input D kind input actor from to) (λ t. t ≡ db)
  unfolding to_quarantine_movement_input
  to_quarantine_movement_input-reads kind input actor from to db =
      Leaves-throw_if _ _ _ (λ _. refl)
        λ _. Leaves-reads _ _ (get_product_or_throw-reads D input.product_id db) refl λ _ _.
          Leaves-reads _ _ (get_warehouse_or_throw-reads D input.warehouse_id db) refl
            λ _ _. Leaves-pure _ refl

  to_quarantine_movement_input-buckets :
      (kind : InventoryMovementType) (input : QuarantineMovement) (actor : Actor)
      (from to : InventoryBucketStatus) (db : Db D)
      → Ensures db
          (to_quarantine_movement_input D kind input actor from to)
          (λ m _. (m.bucket_from ≡ some from) × (m.bucket_to ≡ some to))
  unfolding to_quarantine_movement_input
  to_quarantine_movement_input-buckets kind input actor from to db = Ensures-throw_if _ _ _ λ _.
      Ensures-bind {R = λ _ _. Unit {0}} (Ensures_of_state _ _ (λ _. Unit {0}) tt) λ _ _ _.
        Ensures-bind {R = λ _ _. Unit {0}} (Ensures_of_state _ _ (λ _. Unit {0}) tt)
          λ _ _ _. Ensures-pure _ (refl, refl)

  create_inventory_movement-Reserved :
      (m : MovementInput) (now : ℕ) (db : Db D)
      → is_bucket InventoryBucketStatus.reserved m.bucket_from ≡ false
      → is_bucket InventoryBucketStatus.reserved m.bucket_to ≡ false
      → Reserved D db
      → Leaves db (create_inventory_movement D m now) (λ t. Reserved D t)
  unfolding create_inventory_movement
  create_inventory_movement-Reserved m now db from to h =
      let moved = create_movement-Succeeds D (movement_row D m now) db in
      Leaves-gets _ _ (
        Leaves-run _ _ moved.run
          (Leaves-pure _ (elsewhere_on m now db moved.after from to h moved.holds)))

  pub transfer_to_quarantine-Reserved :
      (input : QuarantineMovement) (actor : Actor) (now : ℕ) (db : Db D)
      → Reserved D db
      → Leaves db (transfer_to_quarantine D input actor now) (λ t. Reserved D t)
  unfolding transfer_to_quarantine inventory_bucket_status_eq
  transfer_to_quarantine-Reserved input actor now db h =
      Leaves-throw_if _ _ _ (λ _. h)
        λ _. Leaves-reads _ _ (to_quarantine_movement_input-reads _ input actor _ _ db) h λ m e.
          let (from, to) =
            Ensures-elim (to_quarantine_movement_input-buckets _ input actor _ _ db) e in
          create_inventory_movement-Reserved m now db (rw from refl) (rw to refl) h

  pub release_from_quarantine-Reserved :
      (input : QuarantineMovement) (actor : Actor) (now : ℕ) (db : Db D)
      → Reserved D db
      → Leaves db (release_from_quarantine D input actor now) (λ t. Reserved D t)
  unfolding release_from_quarantine inventory_bucket_status_eq
  release_from_quarantine-Reserved input actor now db h =
      Leaves-throw_if _ _ _ (λ _. h)
        λ _. Leaves-reads _ _ (to_quarantine_movement_input-reads _ input actor _ _ db) h λ m e.
          let (from, to) =
            Ensures-elim (to_quarantine_movement_input-buckets _ input actor _ _ db) e in
          create_inventory_movement-Reserved m now db (rw from refl) (rw to refl) h
