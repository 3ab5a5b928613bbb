-- ===== src/Orders/Returns/Closed.antt =====
-- What `closeReturnRequest` of return-requests.service.ts has checked when its transaction returns.
use sanmarino_crm.Base.{
  ℕ, ◌≤◌, ◌≡◌, refl, ◌∙◌, sym, Bool, true, false, ◌&&◌, ◌||◌, not, Option, none, some, List, Text,
  text_eq, ◌==◌, leb, total, change, arith,
}
use sanmarino_crm.Records.{Actor, ReturnRequest, ReturnAction}
use sanmarino_crm.Status.{
  ReturnRequestStatus, CashOperationType, cash_operation_type_eq, FinanceEntryType,
  finance_entry_type_eq,
}
use sanmarino_crm.Action.{ok}
use sanmarino_crm.Action.Ensures.{
  Ensures, Ensures-bind, Ensures-gets, Ensures-modify, Ensures-throw_if, Ensures-throw_if_end,
  Ensures_mono,
}
use sanmarino_crm.Database.{Database, Db}
use sanmarino_crm.Transition.Matrices.{assert_return_request_status_transition}
use sanmarino_crm.Orders.Read.{resolve_order_read_scope}
use sanmarino_crm.Orders.Steps.{refuse-none}
use sanmarino_crm.Orders.Returns.Frame.{find_return, update_return}
use sanmarino_crm.Orders.Returns.Goods.{
  GoodsItem, goods_are_complete, refund_is_complete, falls_short, requested_of, is_return_text,
  refunds_of, adjustments_of,
}
use sanmarino_crm.Orders.Returns.Close.{
  assert_return_consequences_complete, close_return_transaction, closed_return,
}
use sanmarino_crm.Orders.Returns.Laws.{
  find_return_request_for_command-found, ending, GoodsAreComplete, goods_of,
}
use sanmarino_crm.Payments.Digest.{HashInput}
use sanmarino_crm.Payments.Idempotency.{CommandContext}

module _ (D : Database) where
  -- What has been refunded in cash for a return, and what the books hold of it.
  abbrev pub refunded_cash : Text → Db D → ℕ
  refunded_cash id db =
      total
        (λ o. is_return_text id o.return_request_id && o.operation_type == CashOperationType.refund)
        (λ o. o.amount) (D.cash_operations.rows db.cash_operations)

  abbrev pub booked_adjustments : Text → Db D → ℕ
  booked_adjustments id db =
      total
        (λ e. is_return_text id e.return_request_id && e.entry_type == FinanceEntryType.adjustment)
        (λ e. e.amount) (D.finance_entries.rows db.finance_entries)

  abbrev pub IsRefunded : ReturnRequest → Db D → Type 0
  IsRefunded r db =
      (requested_of r.requested_refund_amount ≤ refunded_cash r.id db)
      × (requested_of r.requested_refund_amount ≤ booked_adjustments r.id db)

  refund_is_complete-IsRefunded :
      (r : ReturnRequest) (db : Db D) → refund_is_complete D r db ≡ true → IsRefunded r db
  refund_is_complete-IsRefunded r db h =
      let cash =
        D.cash_operations.sum_lem
          (λ o.
            is_return_text r.id o.return_request_id && o.operation_type == CashOperationType.refund)
          (λ o. o.amount) db.cash_operations in
      let books =
        D.finance_entries.sum_lem
          (λ e.
            is_return_text r.id e.return_request_id && e.entry_type == FinanceEntryType.adjustment)
          (λ e. e.amount) db.finance_entries in
      let (a, b) =
        both (requested_of r.requested_refund_amount) (refunds_of D r.id db)
          (adjustments_of D r.id db) h in
      (omega (arith, a, cash), omega (arith, b, books))
    where
      both :
          (n a b : ℕ)
          → (leb n 0 || not (falls_short a n || falls_short b n)) ≡ true
          → (n ≤ a) × (n ≤ b)
      both n a b h = ground (arith, h)

  assert_return_consequences_complete-checks :
      (r : ReturnRequest) (items : List GoodsItem) (db : Db D)
      → Ensures db
          (assert_return_consequences_complete D r items)
          (λ _ t. (t ≡ db) × (goods_are_complete D r.id items db ≡ true) × IsRefunded r db)
  unfolding assert_return_consequences_complete
  assert_return_consequences_complete-checks r items db = Ensures-gets _ _ (
      Ensures-throw_if _ _ _ λ moved. Ensures-gets _ _ (
        Ensures-throw_if_end _ _ _ λ refunded.
          (refl, was_true moved, refund_is_complete-IsRefunded r db (was_true refunded))))
    where
      was_true : {b : Bool} → not b ≡ false → b ≡ true
      was_true {b = true} h = refl
      was_true {b = false} h = absurd (cc h)

  pub record Closed (id : Text) (actor : Actor) (now : ℕ) (db : Db D) (answer : Text) (t : Db D)
      : Type 0 where
    pub scope : Option Text
    pub in_scope : resolve_order_read_scope actor none ≡ ok scope
    pub request : ReturnRequest
    pub found : find_return D id scope db ≡ some request
    pub same_id : answer ≡ request.id
    pub allowed :
        assert_return_request_status_transition request.status ReturnRequestStatus.closed ≡ none
    pub goods : GoodsAreComplete D request.id db
    pub refunded : IsRefunded request db
    pub row :
        D.return_requests.rows t.return_requests
        ≡ change
            (λ r. r.id == request.id)
            (λ r. record r { status = ReturnRequestStatus.closed; closed_at = some now })
            (D.return_requests.rows db.return_requests)

  -- When the transaction that closes a return request returns, the request was one in the caller's
  -- scope with a status from which the matrix leads to closed, its goods were complete, the cash
  -- refunded for it and the adjustments booked for it each reached the refund that it asks for, and
  -- its row is the only one changed, to closed.
  pub close_return_transaction-Closed :
      (digest : HashInput → Text) (id : Text) (actor : Actor) (context : CommandContext) (now : ℕ)
      (record_id : Text) (db : Db D)
      → Ensures db
          (close_return_transaction D digest id actor context now record_id)
          (Closed id actor now db)
  unfolding close_return_transaction
  close_return_transaction-Closed digest id actor context now record_id db =
      Ensures-bind (find_return_request_for_command-found D id actor db)
        λ r db0 (same, scope, in_scope, found). Ensures-gets _ _ (
          Ensures-bind (refuse-none _ db0) λ _ db1 (same1, allowed).
            Ensures-bind (assert_return_consequences_complete-checks r (goods_of D r.id db0) db1)
              λ _ db2 (same2, goods, refunded). Ensures-modify _ _ (
                Ensures_mono
                  (ending D digest ReturnAction.close now r.id actor context _ _ record_id _
                    (update_return D r.id (closed_return now) db2))
                  λ answer t (same_id, (a, b, c, d)). record {
                    scope = scope;
                    in_scope = in_scope;
                    request = r;
                    found = found;
                    same_id = same_id;
                    allowed = allowed;
                    goods = rw (sym same) (rw same1 at goods);
                    refunded = rw (sym same) (rw same1 at refunded);
                    row = rw d (
                        rw (sym (same2 ∙ (same1 ∙ same))) (
                          D.return_requests.update_lem r.id (closed_return now)
                            db2.return_requests));
                  }))
