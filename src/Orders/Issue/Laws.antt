-- ===== src/Orders/Issue/Laws.antt =====
-- What the issue lines of a fulfillment take from each reservation, and what they add up to.
use sanmarino_crm.Base.{
  length, ℕ, ◌+◌, ◌-◌, ◌≤◌, ◌≡◌, refl, Bool, false, List, [], ◌∷◌, ◌++◌, Text, text_eq, ◌==◌, ltb,
  leb, total, total-append, total_each, arith, get, set, get-set, none, some, Option-cases, inl,
  inr, Bool-cases,
}
use sanmarino_crm.Records.{Reservation, InventoryMovement}
use sanmarino_crm.Action.{ok, err, Result}
use sanmarino_crm.Orders.Shipment.{QtyMap, or_zero}
use sanmarino_crm.Orders.Shipment.{qty_epsilon}
use sanmarino_crm.Orders.Issue.{
  Walk, BucketEntry, Buckets, IssueItem, IssueLine, or_empty, walk, issue_items, prepend,
  add_issues, add_reservations, remaining, bucket_entry, issue_lines,
}
use sanmarino_crm.Orders.Issue.Buckets.{held, issued, produced, walk-held, walk-produced}

abbrev pub held_all : Text → Buckets → ℕ
held_all k [] = 0
held_all k ((p, b) ∷ m) = held k b + held_all k m

held_all-set :
    (k p : Text) (b : List BucketEntry) (m : Buckets)
    → held_all k (set p b m) + held k (or_empty (get p m)) ≡ held_all k m + held k b
unfolding get set total
held_all-set k p b [] = omega arith
held_all-set k p b ((q, c) ∷ m) = ground (arith, held_all-set k p b m)

-- The walk of an item and the buckets after it.
abbrev pub walk_of : Buckets → IssueItem → Walk
walk_of m item = walk item.product_id item.qty (or_empty (get item.product_id m))

abbrev pub after : Buckets → IssueItem → Buckets
after m item = set item.product_id (walk_of m item).bucket m

-- How the loop over the items gets past one: it wants nothing, or a walk finds what it wants.
pub data Passed (m : Buckets) (item : IssueItem) (items : List IssueItem) (l : List IssueLine)
    : Type 0 where
  skipped : item.qty ≡ 0 → issue_items m items ≡ ok l → Passed m item items l
  taken :
      (rest : List IssueLine)
      → (walk_of m item).left ≤ 1
      → issue_items (after m item) items ≡ ok rest
      → l ≡ (walk_of m item).lines ++ rest
      → Passed m item items l

prepend-ok :
    (lines l : List IssueLine) (r : Result (List IssueLine))
    → prepend lines r ≡ ok l
    → (rest : List IssueLine) × (r ≡ ok rest) × (l ≡ lines ++ rest)
prepend-ok lines l (ok rest) e = (rest, refl, cc e)
prepend-ok lines l (err x) e = absurd (cc)

pub issue_items-Passed :
    (m : Buckets) (item : IssueItem) (items : List IssueItem) {l : List IssueLine}
    → issue_items m (item ∷ items) ≡ ok l
    → Passed m item items l
unfolding issue_items
issue_items-Passed m item items {l} e = elim (Bool-cases (leb item.qty 0)) [
  | inl t ↦ skipped (ground arith) (rw t at e)
  | inr n ↦ elim (Bool-cases (ltb qty_epsilon (walk_of m item).left)) [
    | inl short ↦ absurd (cc (rw (n, short) at e))
    | inr enough ↦
        let (rest, r, same) =
          prepend-ok (walk_of m item).lines l (issue_items (after m item) items)
            (rw (n, enough) at e) in
        taken rest (ground arith) r same
  ]
]

pub issue_none : (m : Buckets) {l : List IssueLine} → issue_items m [] ≡ ok l → [] ≡ l
unfolding issue_items
issue_none m e = cc e

-- No loop over items takes more from a reservation than its entries hold.
pub issue_items-held :
    (k : Text) (m : Buckets) (items : List IssueItem) {l : List IssueLine}
    → issue_items m items ≡ ok l
    → issued k l ≤ held_all k m
unfolding total
issue_items-held k m [] {l} e =
    let none_left : [] ≡ l = issue_none m e in rw (← none_left) (omega arith)
issue_items-held k m (item ∷ items) e = elim (issue_items-Passed m item items e) [
  | skipped z r ↦ issue_items-held k m items r
  | taken rest few r same ↦
      let ih = issue_items-held k (after m item) items r in
      let b = walk-held k item.product_id item.qty (or_empty (get item.product_id m)) in
      let c = held_all-set k item.product_id (walk_of m item).bucket m in
      rw (same, total-append (λ n. n.reservation_id == k) (λ n. n.qty) (walk_of m item).lines rest)
        (omega (arith, b, c, ih))
]

abbrev pub is_issue_of : Text → InventoryMovement → Bool
is_issue_of k i = elim i.reservation_id [ none ↦ false | some r ↦ r == k ]

or_zero-add_issues :
    (k : Text) (m : QtyMap) (is : List InventoryMovement)
    → or_zero (get k (add_issues m is)) ≡ or_zero (get k m) + total (is_issue_of k) (λ i. i.qty) is
unfolding add_issues total
or_zero-add_issues k m [] = omega arith
or_zero-add_issues k m (i ∷ is) = elim (Option-cases i.reservation_id) [
  | inl e ↦ rw e (omega (arith, or_zero-add_issues k m is))
  | inr (r, e) ↦
      let n = or_zero (get r m) + i.qty in
      let ih = or_zero-add_issues k (set r n m) is in rw e (ground (arith, ih, get-set k r n m))
]

-- What the issues that there are leave of a reservation.
abbrev pub open_qty : List InventoryMovement → Reservation → ℕ
open_qty issues r = r.qty - total (is_issue_of r.id) (λ i. i.qty) issues

remaining-add_issues :
    (issues : List InventoryMovement) (r : Reservation)
    → remaining (add_issues [] issues) r ≡ open_qty issues r
unfolding get
remaining-add_issues issues r = omega (arith, or_zero-add_issues r.id [] issues)

pub total-remaining :
    (p : Reservation → Bool) (issues : List InventoryMovement) (rs : List Reservation)
    → total p (remaining (add_issues [] issues)) rs ≡ total p (open_qty issues) rs
total-remaining p issues rs =
    total_each p (remaining (add_issues [] issues)) (open_qty issues) (remaining-add_issues issues)
      rs

held_all-add_reservations :
    (k : Text) (issued : QtyMap) (m : Buckets) (rs : List Reservation)
    → held_all k (add_reservations issued m rs)
      ≡ held_all k m + total (λ r. r.id == k) (remaining issued) rs
unfolding add_reservations total
held_all-add_reservations k issued m [] = omega arith
held_all-add_reservations k issued m (r ∷ rs) =
    let b = or_empty (get r.product_id m) in
    let e = bucket_entry issued r ∷ [] in
    let ih = held_all-add_reservations k issued (set r.product_id (b ++ e) m) rs in
    let c = held_all-set k r.product_id (b ++ e) m in
    let d = total-append (λ e. e.id == k) (λ e. e.remaining_qty) b e in ground (arith, ih, c, d)

-- A product that no walk is short of is issued as the items want it, up to a millionth each.
abbrev pub demand : Text → List IssueItem → ℕ
demand p = total (λ i. i.product_id == p) (λ i. i.qty)

issue_items-produced :
    (p : Text) (m : Buckets) (items : List IssueItem) {l : List IssueLine}
    → issue_items m items ≡ ok l
    → (produced p l ≤ demand p items) × (demand p items ≤ produced p l + length items)
unfolding total
issue_items-produced p m [] {l} e =
    let none_left : [] ≡ l = issue_none m e in rw (← none_left) (omega arith)
issue_items-produced p m (item ∷ items) e = elim (issue_items-Passed m item items e) [
  | skipped z r ↦ let ih = issue_items-produced p m items r in ground (arith, z, ih)
  | taken rest few r same ↦
      let ih = issue_items-produced p (after m item) items r in
      let b = walk-produced p item.product_id item.qty (or_empty (get item.product_id m)) in
      rw (same, total-append (λ n. n.product_id == p) (λ n. n.qty) (walk_of m item).lines rest)
        (ground (arith, b, ih, few))
]

module _ (reservations : List Reservation) (issues : List InventoryMovement)
    (items : List IssueItem) {l : List IssueLine}
    (issue : issue_lines reservations issues items ≡ ok l) where
  -- What is issued from the reservations with an identifier is at most what the issues that they
  -- have already leave of them.
  pub issued-le-remaining :
      (k : Text) → issued k l ≤ total (λ r. r.id == k) (open_qty issues) reservations
  unfolding issue_lines
  issued-le-remaining k =
      let sums = add_issues [] issues in
      let a = issue_items-held k (add_reservations sums [] reservations) items issue in
      let b = held_all-add_reservations k sums [] reservations in
      let c = total-remaining (λ r. r.id == k) issues reservations in omega (arith, a, b, c)

  -- What is issued of a product is what the items want of it, less at most a millionth for each item.
  pub produced-demand :
      (p : Text) → (produced p l ≤ demand p items) × (demand p items ≤ produced p l + length items)
  unfolding issue_lines
  produced-demand p =
      issue_items-produced p (add_reservations (add_issues [] issues) [] reservations) items issue
