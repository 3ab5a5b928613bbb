-- ===== src/Supply/Stock/Rows.antt =====
-- The rows of reservations that `createReservationsForOrder` writes.
use sanmarino_crm.Base.{
  ℕ, ◌+◌, ◌<◌, ◌≡◌, refl, ◌∙◌, false, Option, none, some, List, [], ◌∷◌, Text, text_eq, not, total,
  All, Distinct, arith,
}
use sanmarino_crm.Records.{Actor, Reservation}
use sanmarino_crm.Status.{inventory_bucket_status_eq, reservation_status_eq}
use sanmarino_crm.Action.Ensures.{
  Ensures, Ensures-pure, Ensures-bind, Ensures-throw_if, Ensures-from_result, Ensures_of_state,
}
use sanmarino_crm.Action.Leaves.{
  Leaves, Leaves-throw_if, Leaves-reads, Leaves-from_result, Leaves-pure,
}
use sanmarino_crm.Action.Succeeds.{Succeeds, Succeeds-pure, Succeeds-bind, Succeeds-gets}
use sanmarino_crm.Database.{Database, Db, any-unconstrained}
use sanmarino_crm.Table.Insert.{Succeeds-create_in}
use sanmarino_crm.Orders.Fulfillments.Ledger.{reservation_rows}
use sanmarino_crm.Supply.{Double, numerator, stored_qty, is_positive}
use sanmarino_crm.Supply.Reservations.{
  checked, CreateReservationItem, CreateReservations, ReservationLine, reservation_lines,
  new_reservation, create_reservation_row, create_reservations,
}
use sanmarino_crm.Supply.Stock.{held, is_for, get_product_or_throw-reads}

-- A quantity of an item that does not vanish when it is stored: it is at least 0.0005.
abbrev pub IsStorable : CreateReservationItem → Type 0
IsStorable item = elim item.quantity [ none ↦ Unit | some d ↦ 0 < stored_qty d ]

abbrev pub LineIsPositive : ReservationLine → Type 0
LineIsPositive line = 0 < stored_qty line.quantity

abbrev pub RowIsPositive : Reservation → Type 0
RowIsPositive r = 0 < r.qty

-- The quantity of a list of reservations.
abbrev pub asked : Text → Text → List Reservation → ℕ
asked p w = total (is_for p w) (λ r. r.qty)

storable_positive :
    (q : Option Double)
    → not (is_positive (numerator q)) ≡ false
    → elim q as (λ _. Type 0) [ none ↦ Unit | some d ↦ 0 < stored_qty d ]
    → 0 < stored_qty (checked q)
storable_positive none positive h = absurd (cc positive)
storable_positive (some d) positive h = h

module _ (D : Database) where
  pub reservation_lines-reads :
      (input : CreateReservations) (actor : Actor) (now : ℕ) (items : List CreateReservationItem)
      (db : Db D)
      → Leaves db (reservation_lines D input actor now items) (λ t. t ≡ db)
  unfolding reservation_lines
  reservation_lines-reads input actor now [] db = Leaves-pure _ refl
  reservation_lines-reads input actor now (item ∷ items) db =
      Leaves-throw_if _ _ _ (λ _. refl)
        λ _. Leaves-reads _ _ (get_product_or_throw-reads D item.product_id db) refl λ _ _.
          Leaves-from_result _ _ refl λ _ _.
            Leaves-reads _ _ (reservation_lines-reads input actor now items db) refl
              λ _ _. Leaves-pure _ refl

  pub reservation_lines-positive :
      (input : CreateReservations) (actor : Actor) (now : ℕ) (items : List CreateReservationItem)
      (db : Db D)
      → All IsStorable items
      → Ensures db (reservation_lines D input actor now items) (λ lines _. All LineIsPositive lines)
  unfolding reservation_lines
  reservation_lines-positive input actor now [] db h = Ensures-pure [] tt
  reservation_lines-positive input actor now (item ∷ items) db h =
      Ensures-throw_if _ _ _ λ positive.
        Ensures-bind {R = λ _ _. Unit {0}} (Ensures_of_state _ _ (λ _. Unit {0}) tt) λ _ db1 _.
          Ensures-from_result _ _ λ at _.
            Ensures-bind (reservation_lines-positive input actor now items db1 h.1)
              λ rest db2 all. Ensures-pure _ (storable_positive item.quantity positive h.0, all)

  -- The rows are active, and no movement is written yet.
  pub record Written (db : Db D) (created : List Reservation) (t : Db D) : Type 0 where
    pub movements : t.inventory_movements ≡ db.inventory_movements
    pub ids : Distinct (λ r. r.id) (reservation_rows D t)
    pub held_more :
        (p w : Text)
        → held p w (reservation_rows D t) ≡ asked p w created + held p w (reservation_rows D db)
    pub positive : All RowIsPositive created

  create_row-Succeeds :
      (now : ℕ) (line : ReservationLine) (db : Db D)
      → Distinct (λ r. r.id) (reservation_rows D db)
      → LineIsPositive line
      → Succeeds db
          (create_reservation_row D (new_reservation D now line db))
          (λ _ t. Written db (new_reservation D now line db ∷ []) t)
  unfolding create_reservation_row total reservation_status_eq
  create_row-Succeeds now line db ids positive =
      let h =
        Succeeds-create_in D.reservations (λ (x : Db D). x.reservations)
          (λ t x. record x { reservations = t }) (new_reservation D now line db) db
          (λ _ t. Written db (new_reservation D now line db ∷ []) t)
          (any-unconstrained (new_reservation D now line db) _)
          (λ t e. record {
            movements = refl;
            ids = rw e (D.reservations.next_id-fresh db.reservations, ids);
            held_more = λ p w. rw e (ground arith);
            positive = (positive, tt);
          }) in
      record { value = h.value; after = h.after; run = h.run; holds = h.holds }

  Written-trans :
      (r : Reservation) (rest : List Reservation) (db db1 t : Db D)
      → Written db (r ∷ []) db1
      → Written db1 rest t
      → Written db (r ∷ rest) t
  unfolding total
  Written-trans r rest db db1 t one more = record {
    movements = more.movements ∙ one.movements;
    ids = more.ids;
    held_more = λ p w. ground (arith, one.held_more p w, more.held_more p w);
    positive = (one.positive.0, more.positive);
  }

  pub create_reservations-Succeeds :
      (now : ℕ) (lines : List ReservationLine) (db : Db D)
      → Distinct (λ r. r.id) (reservation_rows D db)
      → All LineIsPositive lines
      → Succeeds db (create_reservations D now lines) (λ created t. Written db created t)
  unfolding create_reservations total
  create_reservations-Succeeds now [] db ids h =
      Succeeds-pure []
        record { movements = refl; ids = ids; held_more = λ p w. omega arith; positive = tt }
  create_reservations-Succeeds now (line ∷ lines) db ids h = Succeeds-gets _ _ (
      Succeeds-bind (create_row-Succeeds now line db ids h.0) λ _ db1 one.
        Succeeds-bind (create_reservations-Succeeds now lines db1 one.ids h.1) λ rest t more.
          Succeeds-pure _ (Written-trans (new_reservation D now line db) rest db db1 t one more))
