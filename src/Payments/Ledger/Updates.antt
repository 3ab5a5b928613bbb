-- ===== src/Payments/Ledger/Updates.antt =====
-- The updates that the payment commands make keep the books in balance. Lists of rows here; the
-- commands are in the sibling modules.
use mathlib.Core.Path.{subst, subst₂}
use sanmarino_crm.Base.{
  ℕ, ◌<◌, ◌≡◌, ◌≢◌, ◌∙◌, sym, Bool, true, false, ◌&&◌, not, Option, none, some, List, ◌∷◌, Text,
  text_eq, ◌==◌, All, All-first, first-test, All-mono, All-change_found, All-key-change_inv,
  change-Distinct, Distinct, total, first, change, arith, ◌+◌, All-found, ==-refl,
}
use sanmarino_crm.Records.{Payment, ReturnRequest, CashOperation, FinanceEntry}
use sanmarino_crm.Payments.Ledger.{
  moved, returned, Settles, IsSettled, IsCapped, AtMost, IsBalanced,
}
use sanmarino_crm.Payments.Refund.{exceeds_requested}
use sanmarino_crm.Status.{
  PaymentStatus, CashOperationType, cash_operation_type_eq, FinanceEntryType, finance_entry_type_eq,
}

-- The finance entry that a movement of cash is booked as.
abbrev pub Books : CashOperationType → FinanceEntryType → Type 0
Books CashOperationType.cash_in FinanceEntryType.income = Unit
Books CashOperationType.refund FinanceEntryType.adjustment = Unit
Books _ _ = ⊥

-- The test of a payment that a command reads.
abbrev pub is_payment : Text → Payment → Bool
is_payment k p = p.id == k && not p.is_deleted

pub is_payment-id : (k : Text) (p : Payment) → is_payment k p ≡ true → p.id ≡ k
is_payment-id k p h = ground arith

module _ {payments : List Payment} {ops : List CashOperation} {entries : List FinanceEntry}
    {returns : List ReturnRequest} (b : IsBalanced payments ops entries returns) (k : Text)
    {p : Payment} (found : first (is_payment k) payments ≡ some p) (f : Payment → Payment)
    (same : (q : Payment) → (f q).id ≡ q.id) where
  found_id : p.id ≡ k
  found_id = is_payment-id k p (first-test (is_payment k) payments found)

  only : (q : Payment) → is_payment k q ≡ true → q.id ≡ p.id
  only q t = is_payment-id k q t ∙ sym found_id

  -- A change of one payment with no movement of cash.
  pub update-IsBalanced :
      IsSettled ops (f p) → IsBalanced (change (λ q. q.id == p.id) f payments) ops entries returns
  update-IsBalanced s = record {
    distinct_payments = change-Distinct (λ q. q.id) _ f same payments b.distinct_payments;
    distinct_returns = b.distinct_returns;
    settled =
        All-change_found (λ q. q.id) (IsSettled ops) (IsSettled ops) (is_payment k) f p.id payments
          b.distinct_payments found only b.settled s (λ q h away. h);
    unlinked = λ j h. b.unlinked j (All-key-change_inv (λ q. q.id) _ f same j payments h);
    mirrored = b.mirrored;
    capped = b.capped;
  }

  -- A change of one payment with a movement of cash that is linked to it, and its finance entry.
  pub move-IsBalanced :
      (op : CashOperation) (e : FinanceEntry)
      → op.payment_id ≡ some p.id
      → e.payment_id ≡ some p.id
      → e.amount ≡ op.amount
      → Books op.operation_type e.entry_type
      → IsSettled (op ∷ ops) (f p)
      → All (IsCapped (op ∷ ops)) returns
      → IsBalanced (change (λ q. q.id == p.id) f payments) (op ∷ ops) (e ∷ entries) returns
  unfolding total
  move-IsBalanced op e link entry_link amount kind s c = record {
    distinct_payments = change-Distinct (λ q. q.id) _ f same payments b.distinct_payments;
    distinct_returns = b.distinct_returns;
    settled =
        All-change_found (λ q. q.id) (IsSettled ops) (IsSettled (op ∷ ops)) (is_payment k) f p.id
          payments b.distinct_payments found only b.settled s (λ q h away. other q h away);
    unlinked = λ j h. fresh j (All-key-change_inv (λ q. q.id) _ f same j payments h);
    mirrored = λ j. ground (arith, b.mirrored j);
    capped = c;
  }
    where
      unmoved :
          (kind : CashOperationType) (q : Payment)
          → q.id ≢ p.id
          → moved kind q.id (op ∷ ops) ≡ moved kind q.id ops
      unmoved kind q away = ground arith

      other : (q : Payment) → IsSettled ops q → q.id ≢ p.id → IsSettled (op ∷ ops) q
      other q h away = (
        h.0,
        subst₂ (Settles q.status q.amount q.refunded_amount)
            (sym (unmoved CashOperationType.cash_in q away))
            (sym (unmoved CashOperationType.refund q away)) h.1,
      )

      fresh :
          (j : Text)
          → All (λ q. q.id ≢ j) payments
          → (moved CashOperationType.cash_in j (op ∷ ops) ≡ 0)
            × (moved CashOperationType.refund j (op ∷ ops) ≡ 0)
      fresh j h =
          ground
            (arith, b.unlinked j h, (All-first (λ q. q.id ≢ j) (is_payment k) payments h found).0)

-- A payment with a fresh identifier and no cash yet.
pub create-IsBalanced :
    {payments : List Payment} {ops : List CashOperation} {entries : List FinanceEntry}
    {returns : List ReturnRequest} (b : IsBalanced payments ops entries returns) (p : Payment)
    → All (λ q. q.id ≢ p.id) payments
    → 0 < p.amount
    → p.status ≡ PaymentStatus.pending
    → p.refunded_amount ≡ 0
    → IsBalanced (p ∷ payments) ops entries returns
create-IsBalanced b p fresh positive pending nothing = record {
  distinct_payments = (fresh, b.distinct_payments);
  distinct_returns = b.distinct_returns;
  settled = (ground (arith, b.unlinked p.id fresh), b.settled);
  unlinked = λ j h. b.unlinked j h.1;
  mirrored = b.mirrored;
  capped = b.capped;
}

module _ (op : CashOperation) (ops : List CashOperation) where
  -- A cash operation that is no refund leaves every cap as it was.
  pub cash_in-IsCapped :
      (returns : List ReturnRequest)
      → op.operation_type ≡ CashOperationType.cash_in
      → All (IsCapped ops) returns
      → All (IsCapped (op ∷ ops)) returns
  unfolding total
  cash_in-IsCapped returns kind =
      All-mono _ _ returns (λ r h. subst (AtMost r.requested_refund_amount) (sym (same r)) h)
    where
      same : (r : ReturnRequest) → returned r.id (op ∷ ops) ≡ returned r.id ops
      same r = ground arith

  -- A refund within the cap of its return request.
  pub refund-IsCapped :
      (returns : List ReturnRequest) (test : ReturnRequest → Bool) {r : ReturnRequest}
      → Distinct (λ s. s.id) returns
      → first test returns ≡ some r
      → ((s : ReturnRequest) → test s ≡ true → s.id ≡ r.id)
      → op.operation_type ≡ CashOperationType.refund
      → op.return_request_id ≡ some r.id
      → exceeds_requested r.requested_refund_amount (returned r.id ops + op.amount) ≡ false
      → All (IsCapped ops) returns
      → All (IsCapped (op ∷ ops)) returns
  unfolding total
  refund-IsCapped returns test {r} distinct found keyed kind link fits h =
      All-found (λ s. s.id) (IsCapped ops) (IsCapped (op ∷ ops)) test r.id returns distinct found
        keyed h
        (subst (AtMost r.requested_refund_amount) (sym grown)
          (bounded r.requested_refund_amount _ fits))
        (λ s c away. subst (AtMost s.requested_refund_amount) (sym (same s away)) c)
    where
      grown : returned r.id (op ∷ ops) ≡ returned r.id ops + op.amount
      grown = ground (arith, ==-refl r.id)

      same : (s : ReturnRequest) → s.id ≢ r.id → returned s.id (op ∷ ops) ≡ returned s.id ops
      same s away = ground arith

      bounded : (o : Option ℕ) (n : ℕ) → exceeds_requested o n ≡ false → AtMost o n
      bounded none n e = tt
      bounded (some q) n e = ground arith
