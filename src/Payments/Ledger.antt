-- ===== src/Payments/Ledger.antt =====
-- What the rows of payments, cash operations, finance entries and return requests say together.
pub mod Updates
pub mod Steps
pub mod Transactions
pub mod Frame
pub mod Progress
pub mod Commands
pub mod Conformity
use sanmarino_crm.Base.{
  ℕ, ◌≤◌, ◌<◌, ◌≡◌, ◌≢◌, Bool, true, false, ◌&&◌, Option, none, some, List, Text, text_eq, ◌==◌,
  All, Distinct, total,
}
use sanmarino_crm.Records.{Payment, ReturnRequest, CashOperation, FinanceEntry}
use sanmarino_crm.Database.{Database, Db}
use sanmarino_crm.Payments.Refund.{is_link, is_refund_of_return}
use sanmarino_crm.Status.{
  PaymentStatus, CashOperationType, cash_operation_type_eq, FinanceEntryType, finance_entry_type_eq,
}

-- The cash operations of a kind that belong to a payment, and their sum.
abbrev pub moved : CashOperationType → Text → List CashOperation → ℕ
moved kind k = total (λ o. is_link k o.payment_id && o.operation_type == kind) (λ o. o.amount)

-- The finance entries of a kind that belong to a payment, and their sum.
abbrev pub recognized : FinanceEntryType → Text → List FinanceEntry → ℕ
recognized kind k = total (λ e. is_link k e.payment_id && e.entry_type == kind) (λ e. e.amount)

-- The refunds that belong to a return request.
abbrev pub returned : Text → List CashOperation → ℕ
returned k = total (is_refund_of_return k) (λ o. o.amount)

-- What a status promises: the amounts of the payment, the cash that came in, the cash that went back.
abbrev pub Settles : PaymentStatus → ℕ → ℕ → ℕ → ℕ → Type 0
Settles PaymentStatus.pending amount refunded came went = (refunded ≡ 0) × (came ≡ 0) × (went ≡ 0)
Settles PaymentStatus.rejected amount refunded came went = (refunded ≡ 0) × (came ≡ 0) × (went ≡ 0)
Settles PaymentStatus.completed amount refunded came went =
    (refunded < amount) × (came ≡ amount) × (went ≡ refunded)
Settles PaymentStatus.refunded amount refunded came went =
    (refunded ≡ amount) × (came ≡ amount) × (went ≡ refunded)

abbrev pub IsSettled : List CashOperation → Payment → Type 0
IsSettled ops p =
    (0 < p.amount)
    × Settles p.status p.amount p.refunded_amount (moved CashOperationType.cash_in p.id ops)
        (moved CashOperationType.refund p.id ops)

abbrev pub AtMost : Option ℕ → ℕ → Type 0
AtMost none n = Unit
AtMost (some bound) n = n ≤ bound

abbrev pub IsCapped : List CashOperation → ReturnRequest → Type 0
IsCapped ops r = AtMost r.requested_refund_amount (returned r.id ops)

-- The books are in balance.
pub record IsBalanced (payments : List Payment) (ops : List CashOperation)
    (entries : List FinanceEntry) (returns : List ReturnRequest) : Type 0 where
  pub distinct_payments : Distinct (λ p. p.id) payments
  pub distinct_returns : Distinct (λ r. r.id) returns
  pub settled : All (IsSettled ops) payments
  pub unlinked :
      (k : Text)
      → All (λ p. p.id ≢ k) payments
      → (moved CashOperationType.cash_in k ops ≡ 0) × (moved CashOperationType.refund k ops ≡ 0)
  pub mirrored :
      (k : Text)
      → (recognized FinanceEntryType.income k entries ≡ moved CashOperationType.cash_in k ops)
        × (recognized FinanceEntryType.adjustment k entries ≡ moved CashOperationType.refund k ops)
  pub capped : All (IsCapped ops) returns

-- The rows that the books are read from.
pub record Sheet : Type 0 where
  pub payments : List Payment
  pub ops : List CashOperation
  pub entries : List FinanceEntry
  pub returns : List ReturnRequest

module _ (D : Database) where
  abbrev pub sheet : Db D → Sheet
  sheet db = record {
    payments = D.payments.rows db.payments;
    ops = D.cash_operations.rows db.cash_operations;
    entries = D.finance_entries.rows db.finance_entries;
    returns = D.return_requests.rows db.return_requests;
  }

abbrev pub Balanced : Sheet → Type 0
Balanced s = IsBalanced s.payments s.ops s.entries s.returns
