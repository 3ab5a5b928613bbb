-- ===== src/Orders/Returns/Confirm.antt =====
-- `confirmReturnRequest` of return-requests.service.ts.
use sanmarino_crm.Base.{
  ℕ, ◌-◌, ◌*◌, Bool, true, false, ◌&&◌, not, Option, none, some, List, [], ◌∷◌, map, Text, text,
  text_eq, ◌==◌, any, contains, ltb, leb, if◌then◌else◌,
}
use sanmarino_crm.Records.{
  Fulfillment, FulfillmentItem, ReturnRequest, ReturnRequestItem, Actor, ReturnAction,
  return_confirm_payload, return_request_confirmed, return_request_reference, RoleCode, admin,
  seller, warehouse, logistics, finance, ceo, driver, marketing,
}
use sanmarino_crm.Errors.{
  conflict_exception, forbidden_exception, source_of_truth_violation, access_denied,
}
use sanmarino_crm.Action.{Action, ◌>>=◌, ◌>>◌, pure, gets, or_throw, throw_if, modify}
use sanmarino_crm.Database.{Database, Db}
use sanmarino_crm.Status.{ReturnRequestStatus, FulfillmentStatus, fulfillment_status_eq}
use sanmarino_crm.Transition.Matrices.{assert_return_request_status_transition}
use sanmarino_crm.Orders.Service.{refuse}
use sanmarino_crm.Orders.Returns.{ReturnedQty}
use sanmarino_crm.Orders.Returns.Create.{check_returned}
use sanmarino_crm.Orders.Returns.Frame.{
  run_return_command, create_return_audit, find_return_request_for_command, return_items,
  update_return,
}
use sanmarino_crm.Payments.Digest.{HashInput, simple_return_request}
use sanmarino_crm.Payments.Idempotency.{CommandContext, Surroundings}
use sanmarino_crm.Payments.Writes.{create_outbox_record, complete_record}

abbrev pub confirm_return_scope : Text
confirm_return_scope = text "orders.return_request.confirm.v1"

-- `ceo_approval_threshold_days` in milliseconds
abbrev pub ceo_approval_threshold : ℕ
ceo_approval_threshold = 14 * 24 * 60 * 60 * 1000

abbrev pub is_ceo : RoleCode → Bool
is_ceo ceo = true
is_ceo admin = false
is_ceo seller = false
is_ceo warehouse = false
is_ceo logistics = false
is_ceo finance = false
is_ceo driver = false
is_ceo marketing = false

abbrev pub first_role : List RoleCode → Option RoleCode
first_role [] = none
first_role (r ∷ rs) = some r

abbrev pub earlier : Option ℕ → Option ℕ → Option ℕ
earlier none b = b
earlier (some a) none = some a
earlier (some a) (some b) = if leb a b then some a else some b

-- `_min: { fulfilledAt: true }`
unfoldable pub min_fulfilled_at : List Fulfillment → Option ℕ
min_fulfilled_at [] = none
min_fulfilled_at (f ∷ fs) = earlier f.fulfilled_at (min_fulfilled_at fs)

abbrev pub as_returned_qty : ReturnRequestItem → ReturnedQty
as_returned_qty i = record { order_item_id = i.order_item_id; quantity = i.qty }

-- `confirmedAt.getTime() - realizationAnchorAt.getTime() > …`
abbrev pub requires_approval : ℕ → ℕ → Bool
requires_approval confirmed_at anchor = ltb ceo_approval_threshold (confirmed_at - anchor)

abbrev pub confirmed_return : ℕ → ℕ → Actor → ReturnRequest → ReturnRequest
confirmed_return anchor now actor r = record r {
  status = ReturnRequestStatus.confirmed;
  realization_anchor_at = some anchor;
  confirmed_at = some now;
  requires_ceo_approval = requires_approval now anchor;
  ceo_approved_by = if requires_approval now anchor then some actor.user_id else none;
  ceo_approved_at = if requires_approval now anchor then some now else none;
}

module _ (D : Database) where
  -- `items: { some: { orderItemId: { in: … } } }`
  abbrev pub has_item : List Text → Db D → Fulfillment → Bool
  has_item ids db f = not (
      is_none (
        D.fulfillment_items.find_first
          (λ i. i.fulfillment_id == f.id && contains ids i.order_item_id) db.fulfillment_items))
    where
      is_none : Option FulfillmentItem → Bool
      is_none none = true
      is_none (some i) = false

  -- `anchorAggregate._min.fulfilledAt`; the minimum passes over rows without an instant.
  unfoldable pub realization_anchor : Text → List Text → Db D → Option ℕ
  unfolding min_fulfilled_at
  realization_anchor order_id ids db = min_fulfilled_at (
      D.fulfillments.find_many
        (λ f.
          f.order_id == order_id && f.status == FulfillmentStatus.completed && has_item ids db f)
        db.fulfillments)

  unfoldable pub confirm_return_transaction :
      (HashInput → Text) → Text → Actor → CommandContext → ℕ → Text → Action (Db D) Text
  unfolding find_return_request_for_command refuse check_returned realization_anchor
      create_return_audit create_outbox_record complete_record
  confirm_return_transaction digest return_request_id actor context now record_id = do
    return_request ← find_return_request_for_command D return_request_id actor
    items ← gets (return_items D return_request.id)
    refuse (
        assert_return_request_status_transition return_request.status ReturnRequestStatus.confirmed)
    check_returned D return_request.order_id (map as_returned_qty items)
    found ← gets (
        realization_anchor return_request.order_id
          (map (λ (i : ReturnRequestItem). i.order_item_id) items))
    anchor ← or_throw found (conflict_exception source_of_truth_violation)
    throw_if (requires_approval now anchor && not (any is_ceo actor.role_codes))
        (forbidden_exception access_denied)
    modify (update_return D return_request.id (confirmed_return anchor now actor))
    create_return_audit D digest ReturnAction.confirm now return_request.id actor context
        (return_confirm_payload return_request.order_id anchor (requires_approval now anchor))
    create_outbox_record D (
        return_request_confirmed return_request.id now anchor (requires_approval now anchor)
          (first_role actor.role_codes))
    complete_record D record_id (return_request_reference return_request.id)
    pure return_request.id

  -- `confirmReturnRequest`
  unfoldable pub confirm_return :
      (HashInput → Text)
      → Surroundings D
      → Text
      → Actor
      → CommandContext
      → Action (Db D) (ReturnRequest × List ReturnRequestItem)
  unfolding run_return_command confirm_return_transaction
  confirm_return digest around id actor context =
      run_return_command D around confirm_return_scope context.idempotency_key
        (digest (simple_return_request id)) actor (some id)
        (confirm_return_transaction digest id actor context around.performed_at)
