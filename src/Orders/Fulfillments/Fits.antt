-- ===== src/Orders/Fulfillments/Fits.antt =====
-- The checks on the items of a new fulfillment (`normalize_create_items` and the loop over the order's
-- items in fulfillments.service.ts): what holds of the items that pass.
use mathlib.Core.Option.{some-injective}
use sanmarino_crm.Base.{
  ℕ, ◌≤◌, ◌≡◌, ◌≢◌, refl, ◌∙◌, sym, Bool, true, false, Option, none, some, Bool-cases, inl, inr,
  List, [], ◌∷◌, Text, text_eq, ◌==◌, ltb, contains, get, set, get-set, if◌then◌else◌, All,
  All-mono, Mem, here, there, ◌⊎◌, Distinct, arith,
}
use sanmarino_crm.Records.{OrderItem}
use sanmarino_crm.Errors.{Exception, conflict_exception, bad_request_exception, validation_error}
use sanmarino_crm.Payments.Normalize.{trim}
use sanmarino_crm.Action.{Result, ok, err}
use sanmarino_crm.Orders.Shipment.{QtyMap}
use sanmarino_crm.Orders.Fulfillments.{
  CreateFulfillmentItemInput, NormalizedItem, normalize_items_from, qty_by_id, check_items,
  positive, is_empty,
}

-- `seen` has none of the identifiers of the items, and no two items have the same.
abbrev pub Fresh : List Text → List NormalizedItem → Type 0
Fresh seen l =
    All (λ i. (contains seen i.order_item_id ≡ false) × (1 ≤ i.qty)) l
    × Distinct (λ i. i.order_item_id) l

positive-le : (o : Option ℕ) (q : ℕ) → positive o ≡ some q → 1 ≤ q
positive-le none q e = absurd (cc)
positive-le (some n) q e = ground arith

-- How `normalize_items_from` gets past an item.
record Accepted (seen : List Text) (item : CreateFulfillmentItemInput)
    (items : List CreateFulfillmentItemInput) (l : List NormalizedItem) : Type 0 where
  qty : ℕ
  rest : List NormalizedItem
  unseen : contains seen (trim item.order_item_id) ≡ false
  positive_qty : 1 ≤ qty
  others : normalize_items_from (trim item.order_item_id ∷ seen) items ≡ ok rest
  whole : l ≡ record { order_item_id = trim item.order_item_id; qty = qty } ∷ rest

normalize_items_from-Accepted :
    (seen : List Text) (item : CreateFulfillmentItemInput) (items : List CreateFulfillmentItemInput)
    {l : List NormalizedItem}
    → normalize_items_from seen (item ∷ items) ≡ ok l
    → Accepted seen item items l
unfolding normalize_items_from
normalize_items_from-Accepted seen item items {l} e =
    go (is_empty id) (contains seen id) (positive item.qty) (normalize_items_from (id ∷ seen) items)
      refl refl refl e
  where
    id : Text
    id = trim item.order_item_id

    go :
        (blank dup : Bool) (q : Option ℕ) (rest : Result (List NormalizedItem))
        → contains seen id ≡ dup
        → positive item.qty ≡ q
        → normalize_items_from (id ∷ seen) items ≡ rest
        → (if blank
            then err (bad_request_exception validation_error)
            else if dup
            then err (bad_request_exception validation_error)
            else elim q as (λ _. Result (List NormalizedItem)) [
              | none ↦ err (bad_request_exception validation_error)
              | some qty ↦ elim rest as (λ _. Result (List NormalizedItem)) [
                | err x ↦ err x
                | ok normalized ↦ ok (record { order_item_id = id; qty = qty } ∷ normalized)
              ]
            ])
          ≡ ok l
        → Accepted seen item items l
    go true dup q rest d p r e = absurd (cc)
    go false true q rest d p r e = absurd (cc)
    go false false none rest d p r e = absurd (cc)
    go false false (some q) (err x) d p r e = absurd (cc)
    go false false (some q) (ok rest) d p r e = record {
      qty = q;
      rest = rest;
      unseen = d;
      positive_qty = positive-le item.qty q p;
      others = r;
      whole = cc e;
    }

normalize_none :
    (seen : List Text) {l : List NormalizedItem} → normalize_items_from seen [] ≡ ok l → [] ≡ l
unfolding normalize_items_from
normalize_none seen e = cc e

-- An identifier that is not among some and one more is neither.
unseen_apart :
    (k : Text) (seen : List Text) (i : NormalizedItem)
    → (contains (k ∷ seen) i.order_item_id ≡ false) × (1 ≤ i.qty)
    → ((contains seen i.order_item_id ≡ false) × (1 ≤ i.qty)) × (i.order_item_id ≢ k)
unseen_apart k seen i h = ground (arith, h)

-- The items that `normalize_create_items` lets through are positive and for distinct order items.
pub normalize_items_from-Fresh :
    (seen : List Text) (items : List CreateFulfillmentItemInput) {l : List NormalizedItem}
    → normalize_items_from seen items ≡ ok l
    → Fresh seen l
normalize_items_from-Fresh seen [] {l} e =
    let done : [] ≡ l = normalize_none seen e in rw (← done) (tt, tt)
normalize_items_from-Fresh seen (item ∷ items) {l} e =
    let a = normalize_items_from-Accepted seen item items e in
    let k = trim item.order_item_id in
    let (kept, apart) = normalize_items_from-Fresh (k ∷ seen) items a.others in
    let both =
      All-mono (λ i. (contains (k ∷ seen) i.order_item_id ≡ false) × (1 ≤ i.qty))
        (λ i. ((contains seen i.order_item_id ≡ false) × (1 ≤ i.qty)) × (i.order_item_id ≢ k))
        a.rest (unseen_apart k seen) kept in
    rw a.whole (
      ((a.unseen, a.positive_qty), All-mono _ _ a.rest (λ i h. h.0) both),
      (All-mono _ _ a.rest (λ i h. h.1) both, apart),
    )

-- The row that an entry of `order_item_by_id` comes from.
abbrev Source : List OrderItem → Text → ℕ → Type 0
Source rows k n = (r : OrderItem) × Mem r rows × (r.id ≡ k) × (r.qty ≡ n)

qty_by_id-Source :
    (m : QtyMap) (rows : List OrderItem) (k : Text) (n : ℕ)
    → get k (qty_by_id m rows) ≡ some n
    → Source rows k n ⊎ (get k m ≡ some n)
unfolding qty_by_id
qty_by_id-Source m [] k n e = inr e
qty_by_id-Source m (r ∷ rows) k n e = elim (qty_by_id-Source (set r.id r.qty m) rows k n e) [
  | inl (s, mem, same, qty) ↦ inl (s, there mem, same, qty)
  | inr old ↦ elim (Bool-cases (r.id == k)) [
    | inl t ↦ inl (
      r,
      here,
      ground arith,
      some-injective r.qty n (rw t at (sym (get-set k r.id r.qty m) ∙ old)),
    )
    | inr f ↦ inr (rw f at (sym (get-set k r.id r.qty m) ∙ old))
  ]
]

-- An item that an item of the order, of at least its quantity, stands behind.
pub record Fits (rows : List OrderItem) (i : NormalizedItem) : Type 0 where
  pub row : OrderItem
  pub member : Mem row rows
  pub same : row.id ≡ i.order_item_id
  pub bound : i.qty ≤ row.qty

check_items-head :
    (m : QtyMap) (i : NormalizedItem) (items : List NormalizedItem)
    → check_items m (i ∷ items) ≡ none
    → (n : ℕ) × (get i.order_item_id m ≡ some n) × (i.qty ≤ n) × (check_items m items ≡ none)
unfolding check_items
check_items-head m i items e = go (get i.order_item_id m) (ltb_cases i.qty) e
  where
    ltb_cases : (q n : ℕ) → (ltb n q ≡ true) ⊎ (ltb n q ≡ false)
    ltb_cases q n = Bool-cases (ltb n q)

    go :
        (o : Option ℕ)
        → ((n : ℕ) → (ltb n i.qty ≡ true) ⊎ (ltb n i.qty ≡ false))
        → elim o as (λ _. Option Exception) [
          | none ↦ some (conflict_exception validation_error)
          | some n ↦
              if ltb n i.qty
              then some (conflict_exception validation_error)
              else check_items m items
        ]
          ≡ none
        → (n : ℕ) × (o ≡ some n) × (i.qty ≤ n) × (check_items m items ≡ none)
    go none c e = absurd (cc e)
    go (some n) c e = elim (c n) [
      | inl t ↦ absurd (cc (t, e))
      | inr f ↦ (n, refl, ground (arith, f), rw f at e)
    ]

pub check_items-Fits :
    (rows : List OrderItem) (items : List NormalizedItem)
    → check_items (qty_by_id [] rows) items ≡ none
    → All (Fits rows) items
unfolding get
check_items-Fits rows [] e = tt
check_items-Fits rows (i ∷ items) e =
    let (n, found, bound, rest) = check_items-head (qty_by_id [] rows) i items e in
    (
      elim (qty_by_id-Source [] rows i.order_item_id n found) [
        | inl (r, mem, same, qty) ↦ record {
          row = r;
          member = mem;
          same = same;
          bound = omega (arith, bound, qty);
        }
        | inr none_yet ↦ absurd (cc none_yet)
      ],
      check_items-Fits rows items rest,
    )
