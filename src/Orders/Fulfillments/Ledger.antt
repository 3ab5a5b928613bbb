-- ===== src/Orders/Fulfillments/Ledger.antt =====
-- What the issue movements say about the reservations (fulfillments.service.ts): no reservation is
-- issued beyond its quantity, whatever is confirmed and however often.
use sanmarino_crm.Base.{
  ℕ, ◌+◌, ◌-◌, ◌≤◌, ◌≡◌, refl, ◌∙◌, ap, Bool, true, ◌&&◌, Option-cases, inl, inr, List, [], ◌∷◌,
  map, Text, text_eq, ◌==◌, contains, if◌then◌else◌, total, total-select, total_cong, total_mono,
  total_not_contained, total-Distinct, All, Mem, Distinct, Bool-cases, arith,
}
use sanmarino_crm.Records.{Reservation, InventoryMovement}
use sanmarino_crm.Status.{InventoryMovementType, inventory_movement_type_eq}
use sanmarino_crm.Action.{ok}
use sanmarino_crm.Action.Ensures.{Ensures, Ensures-pure, Ensures-bind, Ensures_mono}
use sanmarino_crm.Database.{Database, Db}
use sanmarino_crm.Table.Insert.{Ensures-create_in}
use sanmarino_crm.Orders.Issue.{IssueItem, IssueLine, issue_lines}
use sanmarino_crm.Orders.Issue.Buckets.{issued}
use sanmarino_crm.Orders.Issue.Laws.{is_issue_of, open_qty, issued-le-remaining}
use sanmarino_crm.Orders.Fulfillments.Stock.{
  is_issuable, issuable_reservations, issues_of, issue_movement, create_movement, create_issues,
  is_one_of,
}

-- The quantity that has been issued from the reservation with an identifier.
abbrev pub is_issued_from : Text → InventoryMovement → Bool
is_issued_from k m = m.movement_type == InventoryMovementType.issue && is_issue_of k m

abbrev pub issued_of : Text → List InventoryMovement → ℕ
issued_of k = total (is_issued_from k) (λ m. m.qty)

abbrev pub IsWithin : List InventoryMovement → Reservation → Type 0
IsWithin movements r = issued_of r.id movements ≤ r.qty

-- The reservations have distinct identifiers, and none is issued beyond its quantity.
pub record IsCovered (reservations : List Reservation) (movements : List InventoryMovement)
    : Type 0 where
  pub ids : Distinct (λ r. r.id) reservations
  pub within : All (IsWithin movements) reservations

module _ (D : Database) where
  abbrev pub reservation_rows : Db D → List Reservation
  reservation_rows db = D.reservations.rows db.reservations

  abbrev pub movement_rows : Db D → List InventoryMovement
  movement_rows db = D.inventory_movements.rows db.inventory_movements

  abbrev pub Covered : Db D → Type 0
  Covered db = IsCovered (reservation_rows db) (movement_rows db)

  -- The lines are written, one movement each, and nothing else is.
  abbrev pub Issued : Db D → List IssueLine → Db D → Type 0
  Issued db lines t =
      (t.reservations ≡ db.reservations)
      × ((k : Text)
          → issued_of k (movement_rows t) ≡ issued k lines + issued_of k (movement_rows db))

  -- One movement more, and the reservations as they were.
  abbrev pub Added : Db D → InventoryMovement → Db D → Type 0
  Added db m t = (t.reservations ≡ db.reservations) × (movement_rows t ≡ m ∷ movement_rows db)

  pub create_movement-Added :
      (row : Db D → InventoryMovement) (db : Db D)
      → Ensures db (create_movement D row) (λ _ t. Added db (row db) t)
  unfolding create_movement
  create_movement-Added row db = record {
    at =
        (Ensures-create_in D.inventory_movements (λ x. x.inventory_movements)
          (λ t x. record x { inventory_movements = t }) (row db) db (λ _ t. Added db (row db) t)
          (λ t e. (refl, e))).at;
  }

  moved :
      (k : Text) {f o u : Text} {now : ℕ} (lines : List IssueLine) (line : IssueLine)
      (db db1 t : Db D)
      → movement_rows db1 ≡ issue_movement D f o u now line db ∷ movement_rows db
      → issued_of k (movement_rows t) ≡ issued k lines + issued_of k (movement_rows db1)
      → issued_of k (movement_rows t) ≡ issued k (line ∷ lines) + issued_of k (movement_rows db)
  unfolding total inventory_movement_type_eq
  moved k lines line db db1 t rows sums = rw sums (rw rows (ground arith))

  pub create_issues-Issued :
      (fulfillment_id order_id user_id : Text) (now : ℕ) (lines : List IssueLine) (db : Db D)
      → Ensures db
          (create_issues D fulfillment_id order_id user_id now lines)
          (λ _ t. Issued db lines t)
  unfolding create_issues create_movement total
  create_issues-Issued f o u now [] db = Ensures-pure tt (refl, λ k. omega arith)
  create_issues-Issued f o u now (line ∷ lines) db =
      Ensures-bind (create_movement-Added (issue_movement D f o u now line) db)
        (λ _ db1 (same, rows).
          Ensures_mono (create_issues-Issued f o u now lines db1)
            (λ _ t (same1, sums). (same1 ∙ same, λ k. moved k lines line db db1 t rows (sums k))))

  -- An issue of a reservation among those asked for is found by the query.
  is_found :
      (ids : List Text) (k : Text) (m : InventoryMovement)
      → contains ids k ≡ true
      → (if (m.movement_type == InventoryMovementType.issue && is_one_of ids m.reservation_id)
            && is_issue_of k m
          then m.qty
          else 0)
        ≡ (if is_issued_from k m then m.qty else 0)
  is_found ids k m h = elim (Option-cases m.reservation_id) [
    | inl e ↦ simp e (ground arith)
    | inr (r, e) ↦ elim (Bool-cases (r == k)) [
      | inl t ↦ let same : r ≡ k = ground arith in simp (e, same, h) (ground arith)
      | inr n ↦ simp e (ground (arith, n))
    ]
  ]

  -- The issues that the service reads for its reservations are all that there are.
  issues_of-all :
      (rs : List Reservation) (db : Db D) (k : Text)
      → contains (map (λ (r : Reservation). r.id) rs) k ≡ true
      → total (is_issue_of k) (λ m. m.qty) (issues_of D rs db) ≡ issued_of k (movement_rows db)
  issues_of-all rs db k h =
      let ids = map (λ (r : Reservation). r.id) rs in
      let q = λ (m : InventoryMovement).
        m.movement_type == InventoryMovementType.issue && is_one_of ids m.reservation_id in
      ap (total (is_issue_of k) (λ m. m.qty))
        (D.inventory_movements.find_many_lem q db.inventory_movements)
      ∙ total-select (is_issue_of k) q (λ m. m.qty) (λ m. m.qty) (movement_rows db)
      ∙ total_cong (λ m. q m && is_issue_of k m) (is_issued_from k) (λ m. m.qty) (λ m. m.qty)
          (λ m. is_found ids k m h) (movement_rows db)

  module _ (order_id : Text) (items : List IssueItem) (db : Db D) where
    abbrev rs : List Reservation
    rs = issuable_reservations D order_id items db

    abbrev left_of : Text → Reservation → ℕ
    left_of k x = x.qty - issued_of k (movement_rows db)

    same_left :
        (k : Text)
        → contains (map (λ (r : Reservation). r.id) rs) k ≡ true
        → (x : Reservation)
        → (if x.id == k then open_qty (issues_of D rs db) x else 0)
          ≡ (if x.id == k then left_of k x else 0)
    same_left k h x = elim (Bool-cases (x.id == k)) [
      | inl t ↦ let same : x.id ≡ k = ground arith in rw (same, issues_of-all rs db k h) refl
      | inr n ↦ simp n refl
    ]

    -- What is issued from a reservation is at most what is left of it.
    pub issued-le-left :
        {lines : List IssueLine} (r : Reservation)
        → issue_lines rs (issues_of D rs db) items ≡ ok lines
        → Distinct (λ r. r.id) (reservation_rows db)
        → Mem r (reservation_rows db)
        → issued r.id lines ≤ left_of r.id r
    issued-le-left r e d m =
        let bound = issued-le-remaining rs (issues_of D rs db) items e r.id in
        elim (Bool-cases (contains (map (λ (r : Reservation). r.id) rs) r.id)) [
          | inr n ↦ omega (
            arith,
            bound,
            total_not_contained (λ (r : Reservation). r.id) (open_qty (issues_of D rs db)) r.id rs
                n,
          )
          | inl t ↦
              let p = is_issuable order_id (map (λ (i : IssueItem). i.product_id) items) in
              let q = λ (x : Reservation). x.id == r.id in
              let a =
                total_cong q q (open_qty (issues_of D rs db)) (left_of r.id) (same_left r.id t)
                  rs in
              let b =
                D.reservations.find_many_by_lem p (λ r. r.created_at) db.reservations q
                  (left_of r.id) in
              let c = total-select q p (left_of r.id) (left_of r.id) (reservation_rows db) in
              let f =
                total_mono (λ x. p x && q x) q (left_of r.id) (left_of r.id) (λ x. ground arith)
                  (reservation_rows db) in
              let g =
                total-Distinct (λ (x : Reservation). x.id) (left_of r.id) (reservation_rows db) d
                  m in
              omega (arith, bound, a, b, c, f, g)
        ]
