-- ===== src/Orders/Issue.antt =====
-- The stock issue of apps/api/src/modules/orders/fulfillments.service.ts: how the items of a
-- fulfillment are taken from the reservations of its order, the earliest first
-- (`create_inventory_issue_side_effects`). A quantity is a number of millionths.
pub mod Buckets
pub mod Laws
pub mod Enough
use sanmarino_crm.Base.{
  ℕ, ◌+◌, ◌-◌, Option, none, some, List, [], ◌∷◌, ◌++◌, map, Text, ltb, leb, if◌then◌else◌, get,
  set,
}
use sanmarino_crm.Records.{Reservation, InventoryMovement}
use sanmarino_crm.Errors.{conflict_exception, insufficient_stock}
use sanmarino_crm.Action.{Result, ok, err}
use sanmarino_crm.Orders.Shipment.{QtyMap, or_zero, qty_epsilon}

-- An entry of a bucket: `{ id, warehouseId, remainingQty }`
pub record BucketEntry : Type 0 where
  pub id : Text
  pub warehouse_id : Text
  pub remaining_qty : ℕ

-- `Map<string, Array<…>>` by product
abbrev pub Buckets : Type 0
Buckets = List (Text × List BucketEntry)

-- `map.get(k) ?? []`
abbrev pub or_empty : Option (List BucketEntry) → List BucketEntry
or_empty none = []
or_empty (some b) = b

-- A fulfillment item with the product of its order item.
pub record IssueItem : Type 0 where
  pub product_id : Text
  pub qty : ℕ

-- The columns of an issue movement that differ from one to the next.
pub record IssueLine : Type 0 where
  pub product_id : Text
  pub warehouse_id : Text
  pub reservation_id : Text
  pub qty : ℕ

-- `issuedQtyByReservation`
unfoldable pub add_issues : QtyMap → List InventoryMovement → QtyMap
unfolding get set
add_issues m [] = m
add_issues m (i ∷ is) = elim i.reservation_id [
  | none ↦ add_issues m is
  | some r ↦ add_issues (set r (or_zero (get r m) + i.qty) m) is
]

-- `Math.max(0, qty - issued)`
abbrev pub remaining : QtyMap → Reservation → ℕ
remaining issued r = r.qty - or_zero (get r.id issued)

abbrev pub bucket_entry : QtyMap → Reservation → BucketEntry
bucket_entry issued r = record {
  id = r.id;
  warehouse_id = r.warehouse_id;
  remaining_qty = remaining issued r;
}

-- `reservationsByProduct`
unfoldable pub add_reservations : QtyMap → Buckets → List Reservation → Buckets
unfolding get set
add_reservations issued m [] = m
add_reservations issued m (r ∷ rs) =
    add_reservations issued
      (set r.product_id (or_empty (get r.product_id m) ++ bucket_entry issued r ∷ []) m) rs

-- What a walk along a bucket leaves: the quantity still to issue, the bucket with what remains, and
-- the lines.
pub record Walk : Type 0 where
  pub left : ℕ
  pub bucket : List BucketEntry
  pub lines : List IssueLine

abbrev pub min : ℕ → ℕ → ℕ
min a b = if leb a b then a else b

abbrev pub issue_line : Text → BucketEntry → ℕ → IssueLine
issue_line product_id e qty = record {
  product_id = product_id;
  warehouse_id = e.warehouse_id;
  reservation_id = e.id;
  qty = qty;
}

abbrev pub take : BucketEntry → ℕ → BucketEntry
take e qty = record e { remaining_qty = e.remaining_qty - qty }

-- The loop over a bucket. Nothing left to issue ends it, an empty entry is passed over.
unfoldable pub walk : Text → ℕ → List BucketEntry → Walk
walk product_id want [] = record { left = want; bucket = []; lines = [] }
walk product_id want (e ∷ es) =
    let allocated = min want e.remaining_qty in
    let skip = walk product_id want es in
    let rest = walk product_id (want - allocated) es in
    if leb want 0
    then record { left = want; bucket = e ∷ es; lines = [] }
    else if leb e.remaining_qty 0
    then record skip { bucket = e ∷ skip.bucket }
    else record {
      left = rest.left;
      bucket = take e allocated ∷ rest.bucket;
      lines = issue_line product_id e allocated ∷ rest.lines;
    }

abbrev pub prepend : List IssueLine → Result (List IssueLine) → Result (List IssueLine)
prepend lines (ok rest) = ok (lines ++ rest)
prepend lines (err e) = err e

-- The loop over the items. A product without a bucket is given an empty one, which reads the same.
unfoldable pub issue_items : Buckets → List IssueItem → Result (List IssueLine)
unfolding walk get set
issue_items m [] = ok []
issue_items m (item ∷ items) =
    let skip = issue_items m items in
    let w = walk item.product_id item.qty (or_empty (get item.product_id m)) in
    let rest = issue_items (set item.product_id w.bucket m) items in
    if leb item.qty 0
    then skip
    else if ltb qty_epsilon w.left
    then err (conflict_exception insufficient_stock)
    else prepend w.lines rest

-- `issueMovements` from the reservations, the issues that they have already and the items
unfoldable pub issue_lines :
    List Reservation → List InventoryMovement → List IssueItem → Result (List IssueLine)
unfolding add_issues add_reservations issue_items
issue_lines reservations issues items =
    issue_items (add_reservations (add_issues [] issues) [] reservations) items
