-- ===== src/Orders/Fulfillments/Again.antt =====
-- A fulfillment is issued once: `create_inventory_issue_side_effects` of fulfillments.service.ts finds
-- the issues that it has made.
use sanmarino_crm.Base.{
  ℕ, ◌+◌, ◌<◌, ◌≡◌, refl, Bool, true, false, ltb, if◌then◌else◌, List, [], ◌∷◌, length, Text,
  text_eq, total, arith,
}
use sanmarino_crm.Status.{inventory_movement_type_eq}
use sanmarino_crm.Action.{ok, ◌>>=◌, pure}
use sanmarino_crm.Action.Ensures.{
  Ensures, Ensures-pure, Ensures-bind, Ensures-gets, Ensures-throw_if, Ensures-from_result,
  Ensures_mono,
}
use sanmarino_crm.Database.{Database, Db}
use sanmarino_crm.Orders.Issue.{IssueLine}
use sanmarino_crm.Orders.Fulfillments.Stock.{
  is_issue_for, issue_movement, create_issues, issue_items_of, create_inventory_issue_side_effects,
  count_issues,
}
use sanmarino_crm.Orders.Fulfillments.Ledger.{Added, create_movement-Added, movement_rows}

module _ (D : Database) where
  count_issues-total :
      (f : Text) (db : Db D)
      → count_issues D f db ≡ total (is_issue_for f) (λ m. 1) (movement_rows D db)
  count_issues-total f db =
      D.inventory_movements.sum_lem (is_issue_for f) (λ m. 1) db.inventory_movements

  counts_one :
      (f o u : Text) (now : ℕ) (line : IssueLine) (db db1 : Db D)
      → Added D db (issue_movement D f o u now line db) db1
      → count_issues D f db1 ≡ 1 + count_issues D f db
  unfolding total inventory_movement_type_eq
  counts_one f o u now line db db1 (same, rows) =
      rw (count_issues-total f db1, count_issues-total f db, rows) (ground arith)

  create_issues-count :
      (f o u : Text) (now : ℕ) (lines : List IssueLine) (db : Db D)
      → Ensures db
          (create_issues D f o u now lines)
          (λ _ t. count_issues D f t ≡ length lines + count_issues D f db)
  unfolding create_issues
  create_issues-count f o u now [] db = Ensures-pure tt (omega arith)
  create_issues-count f o u now (line ∷ lines) db =
      Ensures-bind (create_movement-Added D (issue_movement D f o u now line) db) λ _ db1 added.
        Ensures_mono (create_issues-count f o u now lines db1)
          λ _ t n. omega (arith, n, counts_one f o u now line db db1 added)

  issue_items_of-count :
      (f o u : Text) (now : ℕ) (db : Db D)
      → Ensures db
          (issue_items_of D f o u now)
          (λ n t. count_issues D f t ≡ n + count_issues D f db)
  unfolding issue_items_of
  issue_items_of-count f o u now db = Ensures-gets _ _ (
      Ensures-throw_if _ _ _ λ some_items. Ensures-gets _ _ (
        Ensures-gets _ _ (
          Ensures-from_result _ _ λ lines e.
            Ensures-bind (create_issues-count f o u now lines db) λ _ t n. Ensures-pure _ n)))

  -- What has been issued is not issued again.
  skips :
      (f o u : Text) (now : ℕ) (t : Db D)
      → 0 < count_issues D f t
      → create_inventory_issue_side_effects D f o u now t ≡ (ok 0, t)
  unfolding create_inventory_issue_side_effects ◌>>=◌
  skips f o u now t h =
      let some_issue : ltb 0 (count_issues D f t) ≡ true = ground arith in rw some_issue refl

  -- An issue that has written at least one movement writes none when it is made again, by any user, at
  -- any time and for any order.
  pub issue_once :
      (fulfillment_id order_id user_id : Text) (now : ℕ) (db : Db D)
      → Ensures db
          (create_inventory_issue_side_effects D fulfillment_id order_id user_id now)
          (λ n t.
            0 < n
            → (order_id' user_id' : Text) (later : ℕ)
            → create_inventory_issue_side_effects D fulfillment_id order_id' user_id' later t
              ≡ (ok 0, t))
  unfolding create_inventory_issue_side_effects
  issue_once f o u now db = Ensures-gets _ _ (branch (ltb 0 (count_issues D f db)))
    where
      branch :
          (b : Bool)
          → Ensures db (if b then pure 0 else issue_items_of D f o u now) (λ n t.
            0 < n
            → (o' u' : Text) (later : ℕ)
            → create_inventory_issue_side_effects D f o' u' later t ≡ (ok 0, t))
      branch true = Ensures-pure 0 λ h. absurd (omega (arith, h))
      branch false =
          Ensures_mono (issue_items_of-count f o u now db)
            λ n t e h o' u' later. skips f o' u' later t (omega (arith, e, h))
