-- ===== src/Tests/Payments.antt =====
-- The payment commands on a database in memory: one shipped order, no payments yet.
use sanmarino_crm.Base.{
  refl, ℕ, Bool, none, some, List, [], ◌∷◌, ◌++◌, Text, text, total, arith, text_eq, nat_eq,
}
use sanmarino_crm.Database.{Db, memory_database}
use sanmarino_crm.Records.{Order, Payment, ReturnRequest, Actor, finance}
use sanmarino_crm.Payments.Digest.{
  HashInput, intake_request, confirm_request, reject_request, refund_request, payment_number,
  audit_event, confirm_execution_request, execution_event, create_return_request,
  simple_return_request, return_event,
}
use sanmarino_crm.Payments.Idempotency.{CommandContext, Surroundings}
use sanmarino_crm.Payments.Ledger.{sheet, Balanced}
use sanmarino_crm.Payments.Calls.{Call, intake, confirm, refund, after}
use sanmarino_crm.Payments.Ledger.Commands.{after-Balanced}
use sanmarino_crm.Payments.Ledger.Progress.{Follows}
use sanmarino_crm.Payments.Ledger.Conformity.{after-Follows}
use sanmarino_crm.Status.{
  OrderFulfillmentType, OrderStatus, OrderControlOverlayStatus, ReturnRequestStatus, PaymentStatus,
  PaymentMethod,
}

abbrev pub digest : HashInput → Text
digest (intake_request o a m s e r) = 1 ∷ a ∷ o ++ e
digest (confirm_request p) = 2 ∷ p
digest (reject_request p r) = 3 ∷ p
digest (refund_request p r a x) = 4 ∷ a ∷ p ++ r
digest (payment_number o k) = 5 ∷ o ++ k
digest (audit_event a p k) = 6 ∷ p ++ k
digest (confirm_execution_request f) = 7 ∷ f
digest (execution_event f k) = 8 ∷ f ++ k
digest (create_return_request o r a is) = 9 ∷ o ++ r
digest (simple_return_request r) = 10 ∷ r
digest (return_event a r k) = 11 ∷ r ++ k

abbrev order : Order
order = record {
  id = text "o1";
  status = OrderStatus.shipped;
  payment_control_status = OrderControlOverlayStatus.none;
  payment_control_due_at = none;
  total_amount = 20_000;
  ready_for_partial_shipment_at = none;
  ready_for_shipment_at = none;
  partially_shipped_at = none;
  shipped_at = some 500;
  responsible_user_id = text "u7";
  fulfillment_type = OrderFulfillmentType.delivery;
  is_deleted = Bool.false;
}

abbrev pub return_request : ReturnRequest
return_request = record {
  id = text "r1";
  order_id = text "o1";
  status = ReturnRequestStatus.processed;
  requested_by_user_id = text "u7";
  reason = text "broken";
  requested_refund_amount = some 5_000;
  realization_anchor_at = some 10;
  confirmed_at = some 20;
  requires_ceo_approval = Bool.false;
  ceo_approved_by = none;
  ceo_approved_at = none;
  processed_at = some 30;
  closed_at = none;
  is_deleted = Bool.false;
}

abbrev pub start : Db memory_database
start = record {
  orders = order ∷ [];
  order_items = [];
  fulfillments = [];
  delivery_tasks = [];
  pickup_windows = [];
  products = [];
  warehouses = [];
  deals = [];
  stock_locks = [];
  supplier_requests = [];
  reservations = [];
  inventory_movements = [];
  fulfillment_items = [];
  payments = [];
  return_requests = return_request ∷ [];
  return_request_items = [];
  cash_operations = [];
  finance_entries = [];
  idempotency_records = [];
  outbox_records = [];
  audit_log = [];
}

abbrev pub clerk : Actor
clerk = record { user_id = text "u1"; role_codes = finance ∷ [] }

abbrev pub context : Text → CommandContext
context key = record { idempotency_key = key; request_id = none; correlation_id = none }

abbrev pub around : ℕ → Surroundings memory_database
around now = record {
  first_now = now;
  first_race = λ s. s;
  retry_now = now;
  retry_race = λ s. s;
  performed_at = now;
}

-- The identifier of the first payment.
abbrev pub first_payment : Text
first_payment = 1 ∷ []

abbrev pub intake_call : Call memory_database digest
intake_call =
    intake
      (record {
        order_id = text "o1";
        amount = text " 100.50 ";
        payment_method = PaymentMethod.card;
        external_source = text "Bank";
        external_event_id = text "e1";
        external_reference = none;
      })
      clerk (context (text "k1")) (around 1_000)

-- An intake, its confirmation, the same confirmation again, a refund, and a refund beyond the cap.
abbrev pub calls : List (Call memory_database digest)
calls =
    intake_call
    ∷ confirm first_payment clerk (context (text "k2")) (around 2_000)
    ∷ confirm first_payment clerk (context (text "k2")) (around 3_000)
    ∷ refund first_payment
        (record { amount = text "30.5"; return_request_id = some (text "r1"); reason = none }) clerk
        (context (text "k3")) (around 4_000)
    ∷ refund first_payment
        (record { amount = text "20"; return_request_id = some (text "r1"); reason = none }) clerk
        (context (text "k4")) (around 5_000)
    ∷ []

abbrev summary : Payment → PaymentStatus × ℕ × ℕ
summary p = (p.status, p.amount, p.refunded_amount)

calls_run : Db memory_database
calls_run = after memory_database digest calls start

pub start-Balanced : Balanced (sheet memory_database start)
unfolding total
start-Balanced = record {
  distinct_payments = tt;
  distinct_returns = (tt, tt);
  settled = tt;
  unlinked = λ k h. (refl, refl);
  mirrored = λ k. (refl, refl);
  capped = (omega arith, tt);
}

after-Balanced_example : Balanced (sheet memory_database (after memory_database digest calls start))
after-Balanced_example = after-Balanced memory_database digest calls start start-Balanced

after-Follows_example :
    Follows
      (sheet memory_database start).payments
      (sheet memory_database (after memory_database digest calls start)).payments
after-Follows_example = after-Follows memory_database digest calls start start-Balanced
