-- ===== src/Orders/Moves.antt =====
-- The commands of orders.service.ts: what an order is after them.
use mathlib.Core.Path.{subst}
use mathlib.Core.Option.{some-injective}
use sanmarino_crm.Base.{
  ℕ, ◌-◌, ◌<◌, ◌≡◌, false, sym, ap, ◌∙◌, true, Option, none, some, Text, text_eq, ◌==◌,
  if◌then◌else◌, first, arith, first-test, first-change, first_unique, Distinct, ==-refl,
}
use sanmarino_crm.Records.{Order, Actor}
use sanmarino_crm.Action.{ok}
use sanmarino_crm.Action.Ensures.{
  Ensures, Ensures_mono, Ensures-bind, Ensures-from_result, Ensures-modify,
}
use sanmarino_crm.Database.{Database, Db}
use sanmarino_crm.Orders.Read.{resolve_order_read_scope}
use sanmarino_crm.Orders.Service.{
  transition_order_status, status_patch, put_on_control, update_order_row, gross_paid_of_order,
  refunded_of_order, has_uncovered_amount,
}
use sanmarino_crm.Orders.Steps.{
  is_command_order, is_read_order, order_rows, refuse-none, find_order_for_command-first,
  get_order-first, Cleared, check_shipment-Cleared, is_uncovered, build_control_patch-if,
}
use sanmarino_crm.Status.{OrderStatus, order_status_eq, order_control_overlay_status_eq}
use sanmarino_crm.Transition.Matrices.{assert_order_status_transition}

module _ (D : Database) (order_id : Text) (actor : Actor) (now : ℕ) (db : Db D) where
  -- The update of a row that a command has found, read again by the command's last read.
  pub reread :
      (scope : Option Text) (f : Order → Order) {o : Order}
      → ((x : Order) → ((f x).id ≡ x.id) × ((f x).responsible_user_id ≡ x.responsible_user_id))
      → Distinct (λ x. x.id) (order_rows D db)
      → first (is_command_order order_id scope) (order_rows D db) ≡ some o
      → first (is_read_order order_id scope) (order_rows D (update_order_row D o.id f db))
        ≡ some (f o)
  reread scope f {o} same distinct found =
      ap (first (is_read_order order_id scope)) (D.orders.update_lem o.id f db.orders)
      ∙ first-change (is_read_order order_id scope) (λ x. x.id == o.id) f (order_rows D db)
          (blind scope)
          (first_unique (λ x. x.id) (is_command_order order_id scope) (is_read_order order_id scope)
            (order_rows D db) distinct found (ground (arith, tested))
            (λ x t. ground (arith, t, tested)))
          (==-refl o.id)
    where
      tested : is_command_order order_id scope o ≡ true
      tested = first-test (is_command_order order_id scope) (order_rows D db) found

      blind :
          (scope : Option Text) (x : Order)
          → is_read_order order_id scope (f x) ≡ is_read_order order_id scope x
      blind scope x = ground (arith, same x)

  -- What a change of status makes of the order.
  abbrev pub moved : OrderStatus → Order → Order → Order
  moved target order o =
      (if is_uncovered D db order target then put_on_control now else (λ x. x))
        (status_patch target now o)

  moved-keys :
      (target : OrderStatus) (order o : Order)
      → ((moved target order o).id ≡ o.id)
        × ((moved target order o).responsible_user_id ≡ o.responsible_user_id)
  moved-keys target order o = ground arith

  exactly :
      (order : Order)
      → gross_paid_of_order D order.id db ≡ order.total_amount
      → refunded_of_order D order.id db ≡ 0
      → has_uncovered_amount D order db ≡ false
  exactly order whole unrefunded =
      ap (λ g. D.doubles.is_uncovered order.total_amount g (refunded_of_order D order.id db)) whole
      ∙ ap (λ n. D.doubles.is_uncovered order.total_amount order.total_amount n) unrefunded
      ∙ D.doubles.exact order.total_amount

  moved-covered :
      (target : OrderStatus) (order : Order)
      → has_uncovered_amount D order db ≡ false
      → (moved target order order).payment_control_status ≡ order.payment_control_status
  moved-covered target order covered = ground (arith, covered)

  pub record Moved (target : OrderStatus) (o : Order) (t : Db D) : Type 0 where
    pub order : Order
    pub scope : Option Text
    pub scoped : resolve_order_read_scope actor none ≡ ok scope
    pub found : first (is_command_order order_id scope) (order_rows D db) ≡ some order
    pub allowed : assert_order_status_transition order.status target ≡ none
    pub cleared : Cleared D db target order.id
    pub answer : o ≡ moved target order order
    pub overpaid :
        order.total_amount < gross_paid_of_order D order.id db - refunded_of_order D order.id db
        → o.payment_control_status ≡ order.payment_control_status
    pub paid :
        gross_paid_of_order D order.id db ≡ order.total_amount
        → refunded_of_order D order.id db ≡ 0
        → o.payment_control_status ≡ order.payment_control_status
    pub written : t ≡ update_order_row D order.id (moved target order) db

  pub transition_order_status-Moved :
      (target : OrderStatus)
      → Distinct (λ x. x.id) (order_rows D db)
      → Ensures db (transition_order_status D order_id target actor now) (Moved target)
  unfolding transition_order_status
  transition_order_status-Moved target distinct = Ensures-from_result _ _ λ scope scoped.
      Ensures-bind (find_order_for_command-first D db order_id scope) λ order t1 (e1, found).
        Ensures-bind (refuse-none (assert_order_status_transition order.status target) t1)
          λ _ t2 (e2, allowed).
            Ensures-bind (check_shipment-Cleared D t2 target order.id) λ _ t3 (e3, cleared).
              Ensures-bind (build_control_patch-if D t3 order target now) λ patch t4 (e4, p).
                Ensures-modify _ _ (
                  Ensures_mono (get_order-first D _ order_id actor scoped) λ o t (e5, answered).
                    let same = e4 ∙ (e3 ∙ (e2 ∙ e1)) in
                    let same_patch =
                      p
                      ∙ ap
                          (λ y.
                            if is_uncovered D y order target then put_on_control now else (λ x. x))
                          (e3 ∙ (e2 ∙ e1)) in
                    let update =
                      ap
                        (λ y.
                          update_order_row D order.id (λ x. patch (status_patch target now x)) y)
                        same
                      ∙ ap
                          (λ q. update_order_row D order.id (λ x. q (status_patch target now x)) db)
                          same_patch in
                    let answer = some-injective o (moved target order order) (
                      sym answered
                      ∙ (ap (λ y. first (is_read_order order_id scope) (order_rows D y)) update
                          ∙ reread scope (moved target order) (moved-keys target order) distinct
                              found)) in
                    let kept = λ (covered : has_uncovered_amount D order db ≡ false).
                      ap (λ x. x.payment_control_status) answer
                      ∙ moved-covered target order covered in
                    record {
                      order = order;
                      scope = scope;
                      scoped = scoped;
                      found = found;
                      allowed = allowed;
                      cleared = subst (λ y. Cleared D y target order.id) (e2 ∙ e1) cleared;
                      answer = answer;
                      overpaid = λ h. kept (D.doubles.beyond order.total_amount _ _ h);
                      paid = λ whole unrefunded. kept (exactly order whole unrefunded);
                      written = e5 ∙ update;
                    })
