-- ===== src/Orders/Laws.antt =====
-- What the commands of orders.service.ts promise of the order that they answer.
use mathlib.Core.Path.{subst}
use mathlib.Core.Option.{some-injective}
use sanmarino_crm.Base.{
  ℕ, ◌+◌, ◌-◌, ◌≤◌, ◌<◌, ◌≡◌, ◌≢◌, ◌↔◌, refl, sym, ap, ◌∙◌, true, ◌||◌, any, contains, List, [],
  ◌∷◌, Option, none, some, Text, text_eq, first, arith, Distinct, All, length,
}
use sanmarino_crm.Records.{Order, Actor, RoleCode, role_code_eq, finance, ceo, admin}
use sanmarino_crm.Action.{ok}
use sanmarino_crm.Action.Ensures.{
  Ensures, Ensures_mono, Ensures-bind, Ensures-from_result, Ensures-modify, Ensures-throw_if,
}
use sanmarino_crm.Database.{Database, Db}
use sanmarino_crm.Orders.Read.{resolve_order_read_scope}
use sanmarino_crm.Orders.Service.{
  transition_order_status, transition_order_control_overlay, overlay_patch, may_clear,
  is_shipment_status, update_order_row, shipment_progress_input, assert_shipment_status_requirement,
  gross_paid_of_order, refunded_of_order,
}
use sanmarino_crm.Orders.Steps.{
  is_command_order, is_read_order, order_rows, refuse-none, find_order_for_command-first,
  get_order-first,
}
use sanmarino_crm.Orders.Moves.{moved, reread, transition_order_status-Moved}
use sanmarino_crm.Orders.Shipment.{ProgressSummary, qty_epsilon}
use sanmarino_crm.Orders.Shipment.Sums.{qty_of}
use sanmarino_crm.Orders.Shipment.Laws.{shipped_iff}
use sanmarino_crm.Status.{
  OrderStatus, order_status_eq, OrderControlOverlayStatus, order_control_overlay_status_eq,
}
use sanmarino_crm.Transition.Matrices.{assert_order_control_overlay_transition}

requirement_shipped :
    (s : ProgressSummary)
    → assert_shipment_status_requirement OrderStatus.shipped s ≡ none
    → s.recommended_status ≡ some OrderStatus.shipped
unfolding assert_shipment_status_requirement order_status_eq
requirement_shipped s h = ground arith

-- The roles that may clear a problem.
may_clear_one :
    (roles : List RoleCode)
    → any may_clear roles ≡ true
    → (contains roles finance || contains roles ceo || contains roles admin) ≡ true
unfolding role_code_eq any
may_clear_one [] h = h
may_clear_one (r ∷ rs) h = ground (arith, h, may_clear_one rs)

overlay_patch_due :
    (target : OrderControlOverlayStatus) (now : ℕ) (order : Order)
    → let x = overlay_patch target now order in
      (x.payment_control_status ≡ OrderControlOverlayStatus.none)
      ↔ (x.payment_control_due_at ≡ none)
overlay_patch_due target now order = (λ h. ground arith, λ h. ground arith)

-- What has been paid for an order and not refunded, exactly.
abbrev pub net_paid_of_order : (D : Database) → Text → Db D → ℕ
net_paid_of_order D id db = gross_paid_of_order D id db - refunded_of_order D id db

module _ (D : Database) (order_id : Text) (actor : Actor) (now : ℕ) (db : Db D) where
  moved-status :
      (target : OrderStatus) (order : Order)
      → (moved D order_id actor now db target order order).status ≡ target
  moved-status target order = ground arith

  moved-id :
      (target : OrderStatus) (order : Order)
      → (moved D order_id actor now db target order order).id ≡ order.id
  moved-id target order = ground arith

  moved-total :
      (target : OrderStatus) (order : Order)
      → (moved D order_id actor now db target order order).total_amount ≡ order.total_amount
  moved-total target order = ground arith

  -- Each item of the order is fulfilled, up to the tolerance.
  abbrev pub IsFulfilled : Text → Type 0
  IsFulfilled id =
      let input = shipment_progress_input D id db in
      0 < length input.order_items
      → (0 < input.completed_fulfillment_count)
        × All (λ i. i.qty ≤ qty_of i.order_item_id input.completed_shipment_items + qty_epsilon)
            input.order_items

  -- An order that the command has made `shipped` has, if it has items, a completed fulfillment, and
  -- the completed fulfillments cover each of its items up to the tolerance; identifiers of orders are
  -- distinct.
  pub shipped-IsFulfilled :
      Distinct (λ x. x.id) (order_rows D db)
      → Ensures db
          (transition_order_status D order_id OrderStatus.shipped actor now)
          (λ o _. (o.status ≡ OrderStatus.shipped) × IsFulfilled o.id)
  unfolding order_status_eq
  shipped-IsFulfilled distinct =
      Ensures_mono
        (transition_order_status-Moved D order_id actor now db OrderStatus.shipped distinct)
        λ o t m. (
          ap (λ x. x.status) m.answer ∙ moved-status OrderStatus.shipped m.order,
          subst IsFulfilled (sym (ap (λ x. x.id) m.answer ∙ moved-id OrderStatus.shipped m.order))
              λ some_items.
                let (s, returned, required) = m.cleared refl in
                (shipped_iff (shipment_progress_input D m.order.id db) some_items returned).0
                  (requirement_shipped s required),
        )

  -- An order that is not paid in full is under payment control once the command has made it
  -- `partially_shipped` or `shipped`; identifiers of orders are distinct.
  pub uncovered_is_controlled :
      (target : OrderStatus)
      → is_shipment_status target ≡ true
      → Distinct (λ x. x.id) (order_rows D db)
      → Ensures db (transition_order_status D order_id target actor now) (λ o _.
        (net_paid_of_order D o.id db < o.total_amount
          → o.payment_control_status ≢ OrderControlOverlayStatus.none))
  uncovered_is_controlled target shipment distinct =
      Ensures_mono (transition_order_status-Moved D order_id actor now db target distinct) λ o t m.
        subst
          (λ x.
            net_paid_of_order D x.id db < x.total_amount
            → x.payment_control_status ≢ OrderControlOverlayStatus.none)
          (sym m.answer) (controlled m.order)
    where
      controlled :
          (order : Order)
          → let x = moved D order_id actor now db target order order in
            net_paid_of_order D x.id db < x.total_amount
            → x.payment_control_status ≢ OrderControlOverlayStatus.none
      controlled order below e =
          let uncovered =
            D.doubles.missing order.total_amount (gross_paid_of_order D order.id db)
              (refunded_of_order D order.id db)
              (subst (λ n. net_paid_of_order D order.id db < n) (moved-total target order)
                (subst
                  (λ id.
                    net_paid_of_order D id db
                    < (moved D order_id actor now db target order order).total_amount)
                  (moved-id target order) below)) in
          ground (arith, shipment, uncovered, e)

  -- What a change of the payment control has read and answered.
  pub record Controlled (target : OrderControlOverlayStatus) (o : Order) (t : Db D) : Type 0 where
    pub order : Order
    pub scope : Option Text
    pub scoped : resolve_order_read_scope actor none ≡ ok scope
    pub found : first (is_command_order order_id scope) (order_rows D db) ≡ some order
    pub allowed : assert_order_control_overlay_transition order.payment_control_status target ≡ none
    pub cleared :
        order.payment_control_status ≡ OrderControlOverlayStatus.problem
        → target ≡ OrderControlOverlayStatus.none
        → (contains actor.role_codes finance
            || contains actor.role_codes ceo
            || contains actor.role_codes admin)
          ≡ true
    pub answer : o ≡ overlay_patch target now order
    pub status : o.payment_control_status ≡ target
    pub due :
        (o.payment_control_status ≡ OrderControlOverlayStatus.none)
        ↔ (o.payment_control_due_at ≡ none)
    pub written : t ≡ update_order_row D order.id (overlay_patch target now) db

  -- A change of the payment control that returns was allowed by the matrix, only finance, ceo and
  -- admin have cleared a problem, the order answered has the new control, a due date just when there
  -- is a control, and nothing else is written; identifiers of orders are distinct.
  pub transition_order_control_overlay-Controlled :
      (target : OrderControlOverlayStatus)
      → Distinct (λ x. x.id) (order_rows D db)
      → Ensures db
          (transition_order_control_overlay D order_id target actor now)
          (Controlled target)
  unfolding transition_order_control_overlay
  transition_order_control_overlay-Controlled target distinct =
      Ensures-from_result _ _ λ scope scoped.
        Ensures-bind (find_order_for_command-first D db order_id scope) λ order t1 (e1, found).
          Ensures-bind
            (refuse-none
              (assert_order_control_overlay_transition order.payment_control_status target) t1)
            λ _ t2 (e2, allowed). Ensures-throw_if _ _ _ λ clear. Ensures-modify _ _ (
              Ensures_mono (get_order-first D _ order_id actor scoped) λ o t (e3, answered).
                let update =
                  ap (λ y. update_order_row D order.id (overlay_patch target now) y) (e2 ∙ e1) in
                let answer = some-injective o (overlay_patch target now order) (
                  sym answered
                  ∙ (ap (λ y. first (is_read_order order_id scope) (order_rows D y)) update
                      ∙ reread D order_id actor now db scope (overlay_patch target now)
                          (λ x. (refl, refl)) distinct found)) in
                record {
                  order = order;
                  scope = scope;
                  scoped = scoped;
                  found = found;
                  allowed = allowed;
                  cleared = λ problem none.
                      may_clear_one actor.role_codes (ground (arith, clear, problem, none));
                  answer = answer;
                  status = ap (λ x. x.payment_control_status) answer;
                  due =
                      subst
                        (λ x.
                          (x.payment_control_status ≡ OrderControlOverlayStatus.none)
                          ↔ (x.payment_control_due_at ≡ none))
                        (sym answer) (overlay_patch_due target now order);
                  written = e3 ∙ update;
                })
