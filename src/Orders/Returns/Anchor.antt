-- ===== src/Orders/Returns/Anchor.antt =====
-- From when the fourteen days of `confirmReturnRequest` count: the earliest execution.
use sanmarino_crm.Base.{
  ℕ, ◌≤◌, ◌≡◌, ◌≢◌, sym, ◌∙◌, ap, Bool, true, ◌&&◌, none, some, Option-cases, inl, inr, Bool-cases,
  List, [], ◌∷◌, Text, text_eq, ◌==◌, leb, select, All, All-mono, Mem, here, there, Mem-select,
  All-select, arith,
}
use mathlib.Core.Path.{subst}
use mathlib.Core.Option.{some-injective}
use sanmarino_crm.Records.{Fulfillment}
use sanmarino_crm.Status.{FulfillmentStatus, fulfillment_status_eq}
use sanmarino_crm.Database.{Database, Db}
use sanmarino_crm.Orders.Returns.Confirm.{earlier, min_fulfilled_at, has_item, realization_anchor}

-- Executed at `at` or later, if it tells when.
abbrev pub IsNotBefore : ℕ → Fulfillment → Type 0
IsNotBefore at f = (n : ℕ) → f.fulfilled_at ≡ some n → at ≤ n

min_fulfilled_at-none :
    (l : List Fulfillment) → min_fulfilled_at l ≡ none → (at : ℕ) → All (IsNotBefore at) l
unfolding min_fulfilled_at
min_fulfilled_at-none [] e at = tt
min_fulfilled_at-none (f ∷ fs) e at = elim (Option-cases f.fulfilled_at) [
  | inl o ↦ (λ n i. absurd (cc (o, i)), min_fulfilled_at-none fs (rw o at e) at)
  | inr (n, o) ↦ absurd (elim (Option-cases (min_fulfilled_at fs)) as (λ _. ⊥) [
    | inl m ↦ cc (rw (o, m) at e)
    | inr (k, m) ↦ some_of n k (rw (o, m) at e)
  ])
]
  where
    some_of : (n k : ℕ) → earlier (some n) (some k) ≢ none
    some_of n k h = elim (Bool-cases (leb n k)) [ inl t ↦ cc (rw t at h) | inr f ↦ cc (rw f at h) ]

-- The minimum is one of the instants, and none is below it.
min_fulfilled_at-least :
    (l : List Fulfillment) (at : ℕ)
    → min_fulfilled_at l ≡ some at
    → ((f : Fulfillment) × Mem f l × (f.fulfilled_at ≡ some at)) × All (IsNotBefore at) l
unfolding min_fulfilled_at
min_fulfilled_at-least [] at e = absurd (cc e)
min_fulfilled_at-least (f ∷ fs) at e = elim (Option-cases f.fulfilled_at) [
  | inl o ↦
      let ((g, among, instant), least) = min_fulfilled_at-least fs at (rw o at e) in
      ((g, there among, instant), (λ n i. absurd (cc (o, i)), least))
  | inr (n, o) ↦ elim (Option-cases (min_fulfilled_at fs)) [
    | inl m ↦
        let same : n ≡ at = some-injective n at (rw (o, m) at e) in
        (
          (f, here, rw (← same) o),
          (λ k i. own n k o i (omega (arith, same)), min_fulfilled_at-none fs m at),
        )
    | inr (k, m) ↦
        let ((g, among, instant), least) = min_fulfilled_at-least fs k m in
        elim (Bool-cases (leb n k)) [
          | inl t ↦
              let same : n ≡ at = some-injective n at (rw (t) at (rw (o, m) at e)) in
              (
                (f, here, rw (← same) o),
                (
                  λ j i. own n j o i (omega (arith, same)),
                  All-mono (IsNotBefore k) (IsNotBefore at) fs
                      (λ x h j i. ground (arith, h j i, same, t)) least,
                ),
              )
          | inr later ↦
              let same : k ≡ at = some-injective k at (rw (later) at (rw (o, m) at e)) in
              (
                (g, there among, rw (← same) instant),
                (
                  λ j i. own n j o i (ground (arith, same, later)),
                  subst (λ x. All (IsNotBefore x) fs) same least,
                ),
              )
        ]
  ]
]
  where
    own : {at : ℕ} (n j : ℕ) → f.fulfilled_at ≡ some n → f.fulfilled_at ≡ some j → at ≤ n → at ≤ j
    own n j o i h = omega (arith, some-injective n j (sym o ∙ i), h)

module _ (D : Database) where
  -- A completed fulfillment of the order that has one of the items.
  abbrev pub executes : Text → List Text → Db D → Fulfillment → Bool
  executes order_id ids db f =
      f.order_id == order_id && f.status == FulfillmentStatus.completed && has_item D ids db f

  -- `at` is the execution of one of them, and none of them was executed before.
  pub record IsEarliest (order_id : Text) (ids : List Text) (db : Db D) (at : ℕ) : Type 0 where
    pub fulfillment : Fulfillment
    pub stored : Mem fulfillment (D.fulfillments.rows db.fulfillments)
    pub executed : executes order_id ids db fulfillment ≡ true
    pub instant : fulfillment.fulfilled_at ≡ some at
    pub least :
        All
          (λ f. executes order_id ids db f ≡ true → IsNotBefore at f)
          (D.fulfillments.rows db.fulfillments)

  pub realization_anchor-IsEarliest :
      (order_id : Text) (ids : List Text) (db : Db D) {at : ℕ}
      → realization_anchor D order_id ids db ≡ some at
      → IsEarliest order_id ids db at
  unfolding realization_anchor
  realization_anchor-IsEarliest order_id ids db {at} e =
      let q = executes order_id ids db in
      let rows = D.fulfillments.rows db.fulfillments in
      let ((f, among, instant), least) =
        min_fulfilled_at-least (select q rows) at
          (ap min_fulfilled_at (sym (D.fulfillments.find_many_lem q db.fulfillments)) ∙ e) in
      let (stored, executed) = Mem-select q rows among in
      record {
        fulfillment = f;
        stored = stored;
        executed = executed;
        instant = instant;
        least = All-select (IsNotBefore at) q rows least;
      }
