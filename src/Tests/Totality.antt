-- ===== src/Tests/Totality.antt =====
-- Transactions that return, at a pending and at a completed payment.
use sanmarino_crm.Base.{◌≡◌, ◌↔◌, refl, [], ◌∷◌, Text, text, text_eq, none, first, total, arith}
use sanmarino_crm.Action.{ok}
use sanmarino_crm.Action.Ensures.{Ensures}
use sanmarino_crm.Payments.Ledger.Transactions.Refund.{Refunded, refund_transaction-Refunded}
use sanmarino_crm.Database.{Db, memory_database}
use sanmarino_crm.Payments.Confirm.{confirm_transaction}
use sanmarino_crm.Payments.Refund.{RefundOrder, refund_transaction}
use sanmarino_crm.Payments.Totality.Confirm.{Confirmable, confirm_transaction_returns}
use sanmarino_crm.Payments.Totality.Refund.{Refundable, refund_transaction_returns}
use sanmarino_crm.Status.{PaymentStatus}
use sanmarino_crm.Tests.Payments.{digest, start, clerk, context, first_payment, return_request}
use sanmarino_crm.Tests.Replay.{payment}

abbrev pending : Db memory_database
pending = record start { payments = payment ∷ [] }

abbrev completed : Db memory_database
completed = record start { payments = record payment { status = PaymentStatus.completed } ∷ [] }

abbrev order : RefundOrder
order = record { amount = 3_000; return_request_id = text "r1"; reason = none }

confirm_transaction_returns_example :
    ((id : Text) × (t : Db memory_database) × (confirm_transaction memory_database digest
          first_payment clerk
          (context (text "k"))
          2_000
          (text "i1")
          pending
        ≡ (ok id, t)))
    ↔ Confirmable memory_database digest first_payment clerk
        (context (text "k"))
        2_000
        (text "i1")
        pending
confirm_transaction_returns_example =
    confirm_transaction_returns memory_database digest first_payment clerk (context (text "k"))
      2_000 (text "i1") pending tt

refund_transaction_returns_example :
    ((id : Text) × (t : Db memory_database) × (refund_transaction memory_database digest
          first_payment order clerk
          (context (text "k"))
          2_000
          (text "i1")
          completed
        ≡ (ok id, t)))
    ↔ Refundable memory_database digest first_payment order clerk
        (context (text "k"))
        2_000
        (text "i1")
        completed
refund_transaction_returns_example =
    refund_transaction_returns memory_database digest first_payment order clerk (context (text "k"))
      2_000 (text "i1") completed tt

refundable :
    Refundable memory_database digest first_payment order clerk
      (context (text "k"))
      2_000
      (text "i1")
      completed
unfolding first text_eq total
refundable = record {
  payment = record payment { status = PaymentStatus.completed };
  return_request = return_request;
  found = refl;
  completed = refl;
  linked = refl;
  processed = refl;
  covered = omega arith;
  fits = refl;
}

-- The refund returns.
refunds :
    (id : Text) × (t : Db memory_database) × (refund_transaction memory_database digest
        first_payment order clerk
        (context (text "k"))
        2_000
        (text "i1")
        completed
      ≡ (ok id, t))
refunds =
    (refund_transaction_returns memory_database digest first_payment order clerk
        (context (text "k")) 2_000 (text "i1") completed tt).1
      refundable

refund_transaction-Refunded_example :
    Ensures completed
      (refund_transaction memory_database digest first_payment order clerk
        (context (text "k"))
        2_000
        (text "i1"))
      (Refunded memory_database digest first_payment order clerk
        (context (text "k"))
        2_000
        (text "i1")
        completed)
refund_transaction-Refunded_example =
    refund_transaction-Refunded memory_database digest first_payment order clerk
      (context (text "k")) 2_000 (text "i1") completed
