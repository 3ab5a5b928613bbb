-- ===== src/Orders/Shipment/Sums.antt =====
-- The loops of the shipment policy against sums over the items.
use sanmarino_crm.Base.{
  get, set, get-set, ℕ, ◌+◌, ◌≤◌, ◌≡◌, refl, Bool, false, Option, none, some, List, [], ◌∷◌, Text,
  text_eq, ◌==◌, ltb, if◌then◌else◌, total, any, arith,
}
use sanmarino_crm.Orders.Shipment.{
  Item, QtyMap, or_zero, add_order_items, add_completed_items, Progress, returns, throws,
  not_linked, exceeds_order, qty_epsilon,
}

-- The quantity of an identifier over a list of items.
abbrev pub qty_of : Text → List Item → ℕ
qty_of k = total (λ i. i.order_item_id == k) (λ i. i.qty)

-- The identifier stands in the list.
abbrev pub is_listed : Text → List Item → Bool
is_listed k = any (λ i. i.order_item_id == k)

-- After the loop a map has the sum of each identifier.
pub get-add_order_items :
    (k : Text) (m : QtyMap) (items : List Item)
    → or_zero (get k (add_order_items m items)) ≡ or_zero (get k m) + qty_of k items
unfolding add_order_items total
get-add_order_items k m [] = ground arith
get-add_order_items k m (i ∷ items) =
    let n = or_zero (get i.order_item_id m) + i.qty in
    ground
      (arith, get-add_order_items k (set i.order_item_id n m) items, get-set k i.order_item_id n m)

pub get-add_order_items_none :
    (k : Text) (m : QtyMap) (items : List Item)
    → get k m ≡ none
    → is_listed k items ≡ false
    → get k (add_order_items m items) ≡ none
unfolding add_order_items any
get-add_order_items_none k m [] h n = h
get-add_order_items_none k m (i ∷ items) h n =
    get-add_order_items_none k (set i.order_item_id (or_zero (get i.order_item_id m) + i.qty) m)
      items (apart i.order_item_id _ m h (ground arith)) (ground arith)
  where
    apart :
        (j : Text) (n : ℕ) (m : QtyMap)
        → get k m ≡ none
        → (j == k) ≡ false
        → get k (set j n m) ≡ none
    apart j n m h other = ground (arith, get-set k j n m)

-- The loop adds entries for all the identifiers, and drops none.
pub add_order_items-none :
    (k : Text) (m : QtyMap) (items : List Item)
    → get k (add_order_items m items) ≡ none
    → (get k m ≡ none) × (is_listed k items ≡ false)
unfolding add_order_items any
add_order_items-none k m [] h = (h, refl)
add_order_items-none k m (i ∷ items) h =
    let n = or_zero (get i.order_item_id m) + i.qty in
    let later = add_order_items-none k (set i.order_item_id n m) items h in
    ground (arith, later, get-set k i.order_item_id n m)

-- One round of the loop over the completed items that does not throw.
pub record Round (ordered m : QtyMap) (i : Item) (items : List Item) (r : QtyMap) : Type 0 where
  pub ordered_qty : ℕ
  pub linked : get i.order_item_id ordered ≡ some ordered_qty
  pub fits : or_zero (get i.order_item_id m) + i.qty ≤ ordered_qty + qty_epsilon
  pub rest :
      add_completed_items ordered
        (set i.order_item_id (or_zero (get i.order_item_id m) + i.qty) m)
        items
      ≡ returns r

pub add_completed_items-Round :
    (ordered m : QtyMap) (i : Item) (items : List Item) {r : QtyMap}
    → add_completed_items ordered m (i ∷ items) ≡ returns r
    → Round ordered m i items r
unfolding add_completed_items
add_completed_items-Round ordered m i items {r} e = go (get i.order_item_id ordered) refl e
  where
    qty : ℕ
    qty = or_zero (get i.order_item_id m) + i.qty

    go :
        (o : Option ℕ)
        → get i.order_item_id ordered ≡ o
        → elim o as (λ _. Progress QtyMap) [
          | none ↦ throws (not_linked i.order_item_id)
          | some q ↦
              if ltb (q + qty_epsilon) qty
              then throws (exceeds_order i.order_item_id)
              else add_completed_items ordered (set i.order_item_id qty m) items
        ]
          ≡ returns r
        → Round ordered m i items r
    go none f h = absurd (cc)
    go (some q) f h = record {
      ordered_qty = q;
      linked = f;
      fits = ground arith;
      rest = ground arith;
    }

-- After the loop a map has the sum of each identifier.
pub get-add_completed_items :
    (k : Text) (ordered m : QtyMap) (items : List Item) {r : QtyMap}
    → add_completed_items ordered m items ≡ returns r
    → or_zero (get k r) ≡ or_zero (get k m) + qty_of k items
unfolding add_completed_items total
get-add_completed_items k ordered m [] e = ground arith
get-add_completed_items k ordered m (i ∷ items) e =
    let n = or_zero (get i.order_item_id m) + i.qty in
    let round = add_completed_items-Round ordered m i items e in
    ground (
      arith,
      get-add_completed_items k ordered (set i.order_item_id n m) items round.rest,
      get-set k i.order_item_id n m,
    )
