-- ===== src/Orders/Shipment/Laws.antt =====
-- What the answer of the shipment policy says of the items of an order.
use sanmarino_crm.Base.{
  get, set, get-set, Option-cases, Bool-cases, inl, inr, All-mono, ℕ, ◌+◌, ◌≤◌, ◌<◌, ◌≡◌, ◌↔◌, refl,
  true, some, List, [], ◌∷◌, Text, text_eq, All, ==-refl, total, arith, length,
}
use sanmarino_crm.Orders.Shipment.{
  Item, QtyMap, ProgressInput, ProgressSummary, or_zero, add_order_items, add_completed_items,
  Progress, returns, throws, qty_epsilon, every, is_fulfilled, progress_of_items,
  evaluate_order_shipment_progress,
}
use sanmarino_crm.Orders.Shipment.Sums.{
  qty_of, is_listed, get-add_order_items, get-add_order_items_none, add_order_items-none,
  add_completed_items-Round, get-add_completed_items,
}
use sanmarino_crm.Status.{OrderStatus}

abbrev ordered_of : ProgressInput → QtyMap
ordered_of input = add_order_items [] input.order_items

completed-bound :
    (k : Text) (ordered m : QtyMap) (items : List Item) {r : QtyMap}
    → add_completed_items ordered m items ≡ returns r
    → or_zero (get k m) ≤ or_zero (get k ordered) + qty_epsilon
    → or_zero (get k r) ≤ or_zero (get k ordered) + qty_epsilon
unfolding add_completed_items
completed-bound k ordered m [] e h = ground arith
completed-bound k ordered m (i ∷ items) e h =
    let n = or_zero (get i.order_item_id m) + i.qty in
    let round = add_completed_items-Round ordered m i items e in
    completed-bound k ordered (set i.order_item_id n m) items round.rest
      (ground (arith, get-set k i.order_item_id n m, round.linked, round.fits))

completed_linked :
    (ordered m : QtyMap) (items : List Item) {r : QtyMap}
    → add_completed_items ordered m items ≡ returns r
    → All (λ i. (q : ℕ) × (get i.order_item_id ordered ≡ some q)) items
unfolding add_completed_items
completed_linked ordered m [] e = tt
completed_linked ordered m (i ∷ items) e =
    let round = add_completed_items-Round ordered m i items e in
    (
      (round.ordered_qty, round.linked),
      completed_linked ordered (set i.order_item_id (or_zero (get i.order_item_id m) + i.qty) m)
          items round.rest,
    )

listed :
    (k : Text) (items : List Item) {q : ℕ}
    → get k (add_order_items [] items) ≡ some q
    → is_listed k items ≡ true
unfolding get
listed k items h = elim (Bool-cases (is_listed k items)) [
  | inl found ↦ found
  | inr away ↦ ground (arith, get-add_order_items_none k [] items refl away)
]

every-All :
    (completed : QtyMap) (items shipped : List Item)
    → ((k : Text) → or_zero (get k completed) ≡ qty_of k shipped)
    → (every (is_fulfilled completed) items ≡ true)
      ↔ All (λ i. i.qty ≤ qty_of i.order_item_id shipped + qty_epsilon) items
every-All completed [] shipped sums = (λ _. tt, λ _. refl)
every-All completed (i ∷ items) shipped sums =
    let rest = every-All completed items shipped sums in
    let s = sums i.order_item_id in (λ h. ground (arith, rest, s), λ h. ground (arith, rest, s))

-- What stands behind the answer for an order with items.
record Answer (input : ProgressInput) (s : ProgressSummary) : Type 0 where
  pub completed : QtyMap
  pub looped :
      add_completed_items (ordered_of input) [] input.completed_shipment_items ≡ returns completed
  pub answer : s ≡ progress_of_items input completed

evaluate-Answer :
    (input : ProgressInput) {s : ProgressSummary}
    → 0 < length input.order_items
    → evaluate_order_shipment_progress input ≡ returns s
    → Answer input s
unfolding evaluate_order_shipment_progress
evaluate-Answer input {s} some_items e = go _ refl (ground (arith, e))
  where
    go :
        (o : Progress QtyMap)
        → add_completed_items (ordered_of input) [] input.completed_shipment_items ≡ o
        → elim o as (λ _. Progress ProgressSummary) [
          | throws x ↦ throws x
          | returns completed ↦ returns (progress_of_items input completed)
        ]
          ≡ returns s
        → Answer input s
    go (throws x) f h = absurd (cc)
    go (returns completed) f h = record {
      completed = completed;
      looped = f;
      answer = ground (arith, h);
    }

-- Where the policy answers for an order with items, it recommends `shipped` just when a fulfillment
-- is completed and the completed quantity of every item reaches its ordered quantity, up to the
-- tolerance, whatever fulfillments are still pending.
pub shipped_iff :
    (input : ProgressInput) {s : ProgressSummary}
    → 0 < length input.order_items
    → evaluate_order_shipment_progress input ≡ returns s
    → (s.recommended_status ≡ some OrderStatus.shipped) ↔ (
        (0 < input.completed_fulfillment_count)
        × All
            (λ i. i.qty ≤ qty_of i.order_item_id input.completed_shipment_items + qty_epsilon)
            input.order_items)
unfolding progress_of_items get
shipped_iff input {s} some_items e =
    let a = evaluate-Answer input some_items e in
    let full =
      every-All a.completed input.order_items input.completed_shipment_items
        (λ k. ground (arith, get-add_completed_items k (ordered_of input) [] _ a.looped)) in
    (λ h. ground (arith, full, a.answer), λ h. ground (arith, full, a.answer))

-- A loop over items that are linked and fit never throws.
add_completed_items_returns :
    (ordered m : QtyMap) (items : List Item)
    → All (λ i. (q : ℕ) × (get i.order_item_id ordered ≡ some q)) items
    → ((k : Text) → or_zero (get k m) + qty_of k items ≤ or_zero (get k ordered) + qty_epsilon)
    → (r : QtyMap) × (add_completed_items ordered m items ≡ returns r)
unfolding add_completed_items total
add_completed_items_returns ordered m [] linked fits = (m, refl)
add_completed_items_returns ordered m (i ∷ items) linked fits =
    let n = or_zero (get i.order_item_id m) + i.qty in
    let (q, e) = linked.0 in
    let own = fits i.order_item_id in
    let (r, h) =
      add_completed_items_returns ordered (set i.order_item_id n m) items linked.1
        (λ k. ground (arith, fits k, get-set k i.order_item_id n m)) in
    (r, ground (arith, h, e, own, ==-refl i.order_item_id))

linked_of :
    (k : Text) (items : List Item)
    → is_listed k items ≡ true
    → (q : ℕ) × (get k (add_order_items [] items) ≡ some q)
linked_of k items h = elim (Option-cases (get k (add_order_items [] items))) [
  | inl missing ↦ absurd (cc (h, (add_order_items-none k [] items missing).1))
  | inr found ↦ found
]

-- What an order with items and its completed items must meet.
abbrev pub Fits : ProgressInput → Type 0
Fits input =
    All (λ i. is_listed i.order_item_id input.order_items ≡ true) input.completed_shipment_items
    × ((k : Text)
        → qty_of k input.completed_shipment_items ≤ qty_of k input.order_items + qty_epsilon)

Answer-Fits : (input : ProgressInput) {s : ProgressSummary} → Answer input s → Fits input
unfolding get
Answer-Fits input a = (
  All-mono _ _ input.completed_shipment_items (λ i (q, h). listed i.order_item_id _ h)
      (completed_linked (ordered_of input) [] _ a.looped),
  λ k. ground (
    arith,
    completed-bound k (ordered_of input) [] _ a.looped (ground arith),
    get-add_completed_items k (ordered_of input) [] _ a.looped,
    get-add_order_items k [] input.order_items,
  ),
)

-- For an order with items the policy answers, and does not throw, just when every completed item is
-- one of the order's and no item's completed quantity is beyond its ordered quantity and the
-- tolerance.
pub evaluate_iff :
    (input : ProgressInput)
    → 0 < length input.order_items
    → ((s : ProgressSummary) × (evaluate_order_shipment_progress input ≡ returns s)) ↔ Fits input
unfolding evaluate_order_shipment_progress get
evaluate_iff input some_items = (
  λ (s, e). Answer-Fits input (evaluate-Answer input some_items e),
  λ (known, fits).
      let (r, looped) =
        add_completed_items_returns (ordered_of input) [] input.completed_shipment_items
          (All-mono _ _ input.completed_shipment_items (λ i h. linked_of i.order_item_id _ h) known)
          (λ k. ground (arith, fits k, get-add_order_items k [] input.order_items)) in
      (progress_of_items input r, ground (arith, looped, some_items)),
)
