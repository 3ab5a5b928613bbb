-- ===== src/Orders/Returns/Confirmed.antt =====
-- What `confirmReturnRequest` of return-requests.service.ts has checked when its transaction returns.
use sanmarino_crm.Base.{
  ℕ, ◌+◌, ◌-◌, ◌*◌, ◌<◌, ◌≤◌, ◌≡◌, refl, ◌∙◌, sym, true, Option, none, some, Bool-cases, inl, inr,
  List, [], ◌∷◌, map, Text, text_eq, ◌==◌, leb, ltb, if◌then◌else◌, any, get, set, get-set, total,
  All, All-mono, change, arith,
}
use sanmarino_crm.Errors.{Exception}
use sanmarino_crm.Records.{Actor, FulfillmentItem, ReturnRequest, ReturnRequestItem, ReturnAction}
use sanmarino_crm.Status.{ReturnRequestStatus}
use sanmarino_crm.Action.{ok, from_result}
use sanmarino_crm.Action.Ensures.{
  Ensures, Ensures-bind, Ensures-gets, Ensures-or_throw, Ensures-modify, Ensures-throw_if,
  Ensures_mono,
}
use sanmarino_crm.Database.{Database, Db}
use sanmarino_crm.Transition.Matrices.{assert_return_request_status_transition}
use sanmarino_crm.Orders.Read.{resolve_order_read_scope}
use sanmarino_crm.Orders.Steps.{refuse-none}
use sanmarino_crm.Orders.Shipment.{QtyMap, or_zero}
use sanmarino_crm.Orders.Fulfillments.{refused}
use sanmarino_crm.Orders.Returns.{ReturnedQty, add_fulfilled, check_fulfilled, return_tolerance}
use sanmarino_crm.Orders.Returns.Frame.{find_return, return_items, update_return}
use sanmarino_crm.Orders.Returns.Create.{
  check_returned, fulfilled_items, resolve_completed_fulfilled_qty_by_order_item,
}
use sanmarino_crm.Orders.Returns.Confirm.{
  confirm_return_transaction, confirmed_return, is_ceo, as_returned_qty,
}
use sanmarino_crm.Orders.Returns.Anchor.{IsEarliest, realization_anchor-IsEarliest}
use sanmarino_crm.Orders.Returns.Laws.{find_return_request_for_command-found, ending}
use sanmarino_crm.Payments.Digest.{HashInput}
use sanmarino_crm.Payments.Idempotency.{CommandContext}

or_zero-add_fulfilled :
    (k : Text) (m : QtyMap) (items : List FulfillmentItem)
    → or_zero (get k (add_fulfilled m items))
      ≡ or_zero (get k m) + total (λ i. i.order_item_id == k) (λ i. i.qty) items
unfolding add_fulfilled total
or_zero-add_fulfilled k m [] = omega arith
or_zero-add_fulfilled k m (i ∷ is) =
    let n = or_zero (get i.order_item_id m) + i.qty in
    ground
      (arith, or_zero-add_fulfilled k (set i.order_item_id n m) is, get-set k i.order_item_id n m)

check_fulfilled-All :
    (m : QtyMap) (items : List ReturnedQty)
    → check_fulfilled m items ≡ none
    → All (λ i. i.quantity ≤ or_zero (get i.order_item_id m) + return_tolerance) items
unfolding check_fulfilled
check_fulfilled-All m [] e = tt
check_fulfilled-All m (i ∷ is) e =
    elim (Bool-cases (leb i.quantity (or_zero (get i.order_item_id m) + return_tolerance))) [
      | inl t ↦ (ground (arith, t), check_fulfilled-All m is (rw t at e))
      | inr f ↦ absurd (cc (rw f at e))
    ]

module _ (D : Database) where
  -- The quantity of an order item that completed fulfillments have executed.
  abbrev pub fulfilled_qty : Text → List Text → Text → Db D → ℕ
  fulfilled_qty order_id ids k db =
      total (λ i. i.order_item_id == k) (λ i. i.qty) (fulfilled_items D order_id ids db)

  abbrev pub ids_of : List ReturnedQty → List Text
  ids_of items = map (λ (i : ReturnedQty). i.order_item_id) items

  -- The item gives back no more than what has been fulfilled of it, up to the tolerance.
  abbrev pub IsFulfilled : Text → List ReturnedQty → Db D → ReturnedQty → Type 0
  IsFulfilled order_id items db i =
      i.quantity ≤ fulfilled_qty order_id (ids_of items) i.order_item_id db + return_tolerance

  pub check_returned-IsFulfilled :
      (order_id : Text) (items : List ReturnedQty) (db : Db D)
      → Ensures db
          (check_returned D order_id items)
          (λ _ t. (t ≡ db) × All (IsFulfilled order_id items db) items)
  unfolding check_returned from_result resolve_completed_fulfilled_qty_by_order_item get
  check_returned-IsFulfilled order_id items db =
      Ensures-gets _ _ (passed (check_fulfilled fulfilled items) refl)
    where
      fulfilled : QtyMap
      fulfilled = add_fulfilled [] (fulfilled_items D order_id (ids_of items) db)

      passed :
          (x : Option Exception)
          → check_fulfilled fulfilled items ≡ x
          → Ensures db
              (from_result (refused x))
              (λ _ t. (t ≡ db) × All (IsFulfilled order_id items db) items)
      passed none e = record {
        at = (
          refl,
          All-mono (λ i. i.quantity ≤ or_zero (get i.order_item_id fulfilled) + return_tolerance)
              (IsFulfilled order_id items db) items
              (λ i h. omega (
                arith,
                h,
                or_zero-add_fulfilled i.order_item_id []
                    (fulfilled_items D order_id (ids_of items) db),
              ))
              (check_fulfilled-All fulfilled items e),
        );
      }
      passed (some x) e = record { at = tt }

  pub record Confirmed (id : Text) (actor : Actor) (now : ℕ) (db : Db D) (answer : Text) (t : Db D)
      : Type 0 where
    pub scope : Option Text
    pub in_scope : resolve_order_read_scope actor none ≡ ok scope
    pub request : ReturnRequest
    pub found : find_return D id scope db ≡ some request
    pub same_id : answer ≡ request.id
    pub allowed :
        assert_return_request_status_transition request.status ReturnRequestStatus.confirmed ≡ none
    pub anchor : ℕ
    pub fulfilled :
        let items = map as_returned_qty (return_items D request.id db) in
        All (IsFulfilled request.order_id items db) items
    pub approved : anchor + 14 * 24 * 60 * 60 * 1000 < now → any is_ceo actor.role_codes ≡ true
    pub earliest :
        IsEarliest D request.order_id
          (map (λ (i : ReturnRequestItem). i.order_item_id) (return_items D request.id db))
          db
          anchor
    pub row :
        let late = ltb (14 * 24 * 60 * 60 * 1000) (now - anchor) in
        D.return_requests.rows t.return_requests
        ≡ change
            (λ r. r.id == request.id)
            (λ r. record r {
              status = ReturnRequestStatus.confirmed;
              realization_anchor_at = some anchor;
              confirmed_at = some now;
              requires_ceo_approval = late;
              ceo_approved_by = if late then some actor.user_id else none;
              ceo_approved_at = if late then some now else none;
            })
            (D.return_requests.rows db.return_requests)

  -- When the transaction that confirms a return request returns, the request was one in the caller's
  -- scope with a status from which the matrix leads to confirmed, each of its items gives back at
  -- most what completed fulfillments have executed of it and 0.0005 more, the anchor is the earliest
  -- execution of such a fulfillment, a caller with the role ceo has confirmed it if more than 14 days
  -- have passed since, and its row is the only one changed, to confirmed.
  pub confirm_return_transaction-Confirmed :
      (digest : HashInput → Text) (id : Text) (actor : Actor) (context : CommandContext) (now : ℕ)
      (record_id : Text) (db : Db D)
      → Ensures db
          (confirm_return_transaction D digest id actor context now record_id)
          (Confirmed id actor now db)
  unfolding confirm_return_transaction
  confirm_return_transaction-Confirmed digest id actor context now record_id db =
      Ensures-bind (find_return_request_for_command-found D id actor db)
        λ r db0 (same, scope, in_scope, found). Ensures-gets _ _ (
          Ensures-bind (refuse-none _ db0) λ _ db1 (same1, allowed).
            Ensures-bind
              (check_returned-IsFulfilled r.order_id (map as_returned_qty (return_items D r.id db0))
                db1)
              λ _ db2 (same2, fulfilled). Ensures-gets _ _ (
                Ensures-or_throw _ _ _ λ anchor anchored. Ensures-throw_if _ _ _ λ approved.
                  Ensures-modify _ _ (
                    Ensures_mono
                      (ending D digest ReturnAction.confirm now r.id actor context _ _ record_id _
                        (update_return D r.id (confirmed_return anchor now actor) db2))
                      λ answer t (same_id, (a, b, c, d)).
                        let e1 : db1 ≡ db = same1 ∙ same in
                        let e2 : db2 ≡ db = same2 ∙ e1 in
                        record {
                          scope = scope;
                          in_scope = in_scope;
                          request = r;
                          found = found;
                          same_id = same_id;
                          allowed = allowed;
                          anchor = anchor;
                          fulfilled = rw (sym same) (rw same1 at fulfilled);
                          approved = λ late. ground (arith, late, approved);
                          earliest =
                              realization_anchor-IsEarliest D r.order_id _ db
                                (rw (sym same) (rw (same2 ∙ same1) at anchored));
                          row = rw d (
                              rw (sym e2) (
                                D.return_requests.update_lem r.id
                                  (confirmed_return anchor now actor) db2.return_requests));
                        })))
