-- ===== src/Payments/Overlay.antt =====
-- `apply_money_control_overlay_from_payment_completion` of payments.service.ts.
use sanmarino_crm.Base.{
  ℕ, Bool, ◌&&◌, ◌||◌, not, Option, none, some, Text, text_eq, ◌==◌, if◌then◌else◌,
}
use sanmarino_crm.Records.{Order, Payment}
use sanmarino_crm.Errors.{other_error}
use sanmarino_crm.Action.{ok, err, Action}
use sanmarino_crm.Database.{Database, Db}
use sanmarino_crm.Status.{
  OrderStatus, order_status_eq, OrderControlOverlayStatus, order_control_overlay_status_eq,
  PaymentStatus, payment_status_eq,
}
use sanmarino_crm.Transition.Matrices.{assert_order_control_overlay_transition}

-- `where: { orderId, status: "COMPLETED", isDeleted: false }`
abbrev pub is_completed_of : Text → Payment → Bool
is_completed_of order_id p =
    p.order_id == order_id && p.status == PaymentStatus.completed && not p.is_deleted

-- `...(order.paymentControlDueAt ? {} : { paymentControlDueAt: new Date() })`
abbrev pub due_or : ℕ → Option ℕ → Option ℕ
due_or now none = some now
due_or now (some due) = some due

module _ (D : Database) where
  -- `grossPaid` and `refundedAmount`
  abbrev gross_paid : Text → Db D → ℕ
  gross_paid order_id db = D.payments.sum (is_completed_of order_id) (λ p. p.amount) db.payments

  abbrev refunded_amount : Text → Db D → ℕ
  refunded_amount order_id db =
      D.payments.sum (is_completed_of order_id) (λ p. p.refunded_amount) db.payments

  abbrev update_order : Text → (Order → Order) → Db D → Db D
  update_order order_id f db = record db { orders = D.orders.update order_id f db.orders }

  unfoldable pub apply_money_control_overlay : Text → ℕ → Action (Db D) (Unit {0})
  apply_money_control_overlay order_id now db =
      elim (D.orders.find_first (λ o. o.id == order_id && not o.is_deleted) db.orders) [
        | none ↦ (ok tt, db)
        | some order ↦
            if not
              (order.status == OrderStatus.partially_shipped || order.status == OrderStatus.shipped)
            then (ok tt, db)
            else if D.doubles.is_uncovered order.total_amount (gross_paid order.id db)
                (refunded_amount order.id db)
            then if not (order.payment_control_status == OrderControlOverlayStatus.none)
              then (ok tt, db)
              else elim (assert_order_control_overlay_transition OrderControlOverlayStatus.none
                  OrderControlOverlayStatus.on_control) [
                    | some error ↦ (err other_error, db)
                    | none ↦ (
                      ok tt,
                      update_order order.id
                          (λ o. record o {
                            payment_control_status = OrderControlOverlayStatus.on_control;
                            payment_control_due_at = due_or now order.payment_control_due_at;
                          })
                          db,
                    )
                  ]
            else if not (order.payment_control_status == OrderControlOverlayStatus.on_control)
            then (ok tt, db)
            else elim (assert_order_control_overlay_transition OrderControlOverlayStatus.on_control
                OrderControlOverlayStatus.none) [
                  | some error ↦ (err other_error, db)
                  | none ↦ (
                    ok tt,
                    update_order order.id
                        (λ o. record o {
                          payment_control_status = OrderControlOverlayStatus.none;
                          payment_control_due_at = none;
                        })
                        db,
                  )
                ]
      ]
