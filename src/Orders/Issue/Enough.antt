-- ===== src/Orders/Issue/Enough.antt =====
-- When the reservations are enough for the items of a fulfillment, and in which order they are used.
use sanmarino_crm.Base.{
  ℕ, ◌+◌, ◌-◌, ◌≤◌, ◌≡◌, refl, true, false, List, [], ◌∷◌, ◌++◌, Text, text_eq, ◌==◌, ltb, leb,
  if◌then◌else◌, total, total-append, arith, get, set, get-set, inl, inr, Bool-cases,
}
use sanmarino_crm.Records.{Reservation, InventoryMovement}
use sanmarino_crm.Action.{ok, Result}
use sanmarino_crm.Orders.Shipment.{QtyMap, qty_epsilon}
use sanmarino_crm.Orders.Issue.{
  BucketEntry, Buckets, IssueItem, IssueLine, or_empty, issue_items, prepend, add_issues,
  add_reservations, remaining, bucket_entry, issue_lines,
}
use sanmarino_crm.Orders.Issue.Buckets.{stock, produced, walk-produced, walk-left, walk-stock}
use sanmarino_crm.Orders.Issue.Laws.{walk_of, after, demand, open_qty, total-remaining}

abbrev pub supply : Text → Buckets → ℕ
supply p m = stock (or_empty (get p m))

supply-after :
    (p : Text) (m : Buckets) (item : IssueItem)
    → supply p (after m item) ≡ supply p m - (if item.product_id == p then item.qty else 0)
supply-after p m item = ground (
  arith,
  get-set p item.product_id (walk_of m item).bucket m,
  walk-stock item.product_id item.qty (or_empty (get item.product_id m)),
)

enough_left :
    (m : Buckets) (item : IssueItem)
    → item.qty ≤ supply item.product_id m
    → ltb qty_epsilon (walk_of m item).left ≡ false
enough_left m item h =
    rw (walk-left item.product_id item.qty (or_empty (get item.product_id m))) (ground arith)

prepend_ok :
    (lines : List IssueLine) (r : Result (List IssueLine)) {rest : List IssueLine}
    → r ≡ ok rest
    → prepend lines r ≡ ok (lines ++ rest)
prepend_ok lines r e = rw e refl

-- A walk that finds enough produces all that its item wants.
whole :
    (p : Text) (m : Buckets) (item : IssueItem) (items : List IssueItem) (rest : List IssueLine)
    → item.qty ≤ supply item.product_id m
    → produced p rest ≡ demand p items
    → produced p ((walk_of m item).lines ++ rest) ≡ demand p (item ∷ items)
unfolding total
whole p m item items rest own all =
    let b = walk-produced p item.product_id item.qty (or_empty (get item.product_id m)) in
    let left = walk-left item.product_id item.qty (or_empty (get item.product_id m)) in
    rw
      (total-append (λ (n : IssueLine). n.product_id == p) (λ n. n.qty) (walk_of m item).lines rest)
      (ground (arith, b, left, own, all))

issue_items_enough :
    (m : Buckets) (items : List IssueItem)
    → ((p : Text) → demand p items ≤ supply p m)
    → (l : List IssueLine) × (issue_items m items ≡ ok l)
      × ((p : Text) → produced p l ≡ demand p items)
unfolding issue_items total
issue_items_enough m [] h = ([], refl, λ p. refl)
issue_items_enough m (item ∷ items) h = elim (Bool-cases (leb item.qty 0)) [
  | inl z ↦
      let (l, r, all) = issue_items_enough m items (λ p. ground (arith, h p)) in
      rw z (l, r, λ p. ground (arith, z, all p))
  | inr n ↦
      let (rest, r, all) =
        issue_items_enough (after m item) items (λ p. ground (arith, h p, supply-after p m item)) in
      let own : item.qty ≤ supply item.product_id m = ground (arith, h item.product_id) in
      rw (n, enough_left m item own)
        (
          (walk_of m item).lines ++ rest,
          prepend_ok _ _ r,
          λ p. whole p m item items rest own (all p),
        )
]

supply-add_reservations :
    (p : Text) (issued : QtyMap) (m : Buckets) (rs : List Reservation)
    → supply p (add_reservations issued m rs)
      ≡ supply p m + total (λ r. r.product_id == p) (remaining issued) rs
unfolding add_reservations total
supply-add_reservations p issued m [] = omega arith
supply-add_reservations p issued m (r ∷ rs) =
    let b = or_empty (get r.product_id m) in
    let e = bucket_entry issued r ∷ [] in
    let ih = supply-add_reservations p issued (set r.product_id (b ++ e) m) rs in
    let c = get-set p r.product_id (b ++ e) m in
    let d = total-append (λ (e : BucketEntry). true) (λ e. e.remaining_qty) b e in
    ground (arith, ih, c, d)

-- When for each product the reservations have enough left for what the items want of it, the issue
-- returns, and its lines take of each product just what the items want.
pub issue_lines_enough :
    (reservations : List Reservation) (issues : List InventoryMovement) (items : List IssueItem)
    → ((p : Text) → demand p items ≤ total (λ r. r.product_id == p) (open_qty issues) reservations)
    → (l : List IssueLine) × (issue_lines reservations issues items ≡ ok l)
      × ((p : Text) → produced p l ≡ demand p items)
unfolding issue_lines
issue_lines_enough reservations issues items h =
    let sums = add_issues [] issues in
    issue_items_enough (add_reservations sums [] reservations) items (λ p. omega (
      arith,
      h p,
      supply-add_reservations p sums [] reservations,
      total-remaining (λ r. r.product_id == p) issues reservations,
    ))
