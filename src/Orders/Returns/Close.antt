-- ===== src/Orders/Returns/Close.antt =====
-- `closeReturnRequest` of return-requests.service.ts.
use sanmarino_crm.Base.{ℕ, not, some, List, map, Text, text}
use sanmarino_crm.Records.{
  ReturnRequest, ReturnRequestItem, Actor, ReturnAction, return_close_payload,
  return_request_closed, return_request_reference,
}
use sanmarino_crm.Errors.{conflict_exception, source_of_truth_violation}
use sanmarino_crm.Action.{Action, ◌>>=◌, ◌>>◌, pure, gets, throw_if, modify}
use sanmarino_crm.Database.{Database, Db}
use sanmarino_crm.Status.{ReturnRequestStatus}
use sanmarino_crm.Transition.Matrices.{assert_return_request_status_transition}
use sanmarino_crm.Orders.Service.{refuse}
use sanmarino_crm.Orders.Returns.Goods.{
  GoodsItem, goods_item, goods_are_complete, refund_is_complete,
}
use sanmarino_crm.Orders.Returns.Frame.{
  run_return_command, create_return_audit, find_return_request_for_command, return_items,
  update_return,
}
use sanmarino_crm.Payments.Digest.{HashInput, simple_return_request}
use sanmarino_crm.Payments.Idempotency.{CommandContext, Surroundings}
use sanmarino_crm.Payments.Writes.{create_outbox_record, complete_record}

abbrev pub close_return_scope : Text
close_return_scope = text "orders.return_request.close.v1"

abbrev pub closed_return : ℕ → ReturnRequest → ReturnRequest
closed_return now r = record r { status = ReturnRequestStatus.closed; closed_at = some now }

module _ (D : Database) where
  -- `assert_return_consequences_complete`
  unfoldable pub assert_return_consequences_complete :
      ReturnRequest → List GoodsItem → Action (Db D) (Unit {0})
  unfolding goods_are_complete
  assert_return_consequences_complete r items = do
    moved ← gets (goods_are_complete D r.id items)
    throw_if (not moved) (conflict_exception source_of_truth_violation)
    refunded ← gets (refund_is_complete D r)
    throw_if (not refunded) (conflict_exception source_of_truth_violation)

  unfoldable pub close_return_transaction :
      (HashInput → Text) → Text → Actor → CommandContext → ℕ → Text → Action (Db D) Text
  unfolding find_return_request_for_command refuse assert_return_consequences_complete
      create_return_audit create_outbox_record complete_record
  close_return_transaction digest return_request_id actor context now record_id = do
    return_request ← find_return_request_for_command D return_request_id actor
    items ← gets (λ (db : Db D). map (goods_item D db) (return_items D return_request.id db))
    refuse
        (assert_return_request_status_transition return_request.status ReturnRequestStatus.closed)
    assert_return_consequences_complete return_request items
    modify (update_return D return_request.id (closed_return now))
    create_return_audit D digest ReturnAction.close now return_request.id actor context
        (return_close_payload return_request.order_id)
    create_outbox_record D (return_request_closed return_request.id now)
    complete_record D record_id (return_request_reference return_request.id)
    pure return_request.id

  -- `closeReturnRequest`
  unfoldable pub close_return :
      (HashInput → Text)
      → Surroundings D
      → Text
      → Actor
      → CommandContext
      → Action (Db D) (ReturnRequest × List ReturnRequestItem)
  unfolding run_return_command close_return_transaction
  close_return digest around id actor context =
      run_return_command D around close_return_scope context.idempotency_key
        (digest (simple_return_request id)) actor (some id)
        (close_return_transaction digest id actor context around.performed_at)
