-- ===== src/Transition/Matrices.antt =====
-- The transition matrices of apps/api/src/modules/transactional/*/*.transition.guard.ts and of
-- apps/api/src/modules/supply/supplier-request.transition.guard.ts, and the guards made from them.
use sanmarino_crm.Base.{Bool, ◌||◌, Option, List, [], ◌∷◌, ◌==◌}
use sanmarino_crm.Status.{
  DealStatus, deal_status_eq, LeadStatus, lead_status_eq, OrderStatus, order_status_eq,
  OrderControlOverlayStatus, order_control_overlay_status_eq, DeliveryTaskStatus,
  delivery_task_status_eq, ReturnRequestStatus, return_request_status_eq, PaymentStatus,
  payment_status_eq, SupplierRequestStatus, supplier_request_status_eq,
}
use sanmarino_crm.Transition.{StatusTransitionError, assert_transition}

abbrev pub deal_status_transition_matrix : DealStatus → List DealStatus
deal_status_transition_matrix DealStatus.in_progress =
    DealStatus.converted_to_order ∷ DealStatus.cancelled ∷ []
deal_status_transition_matrix DealStatus.converted_to_order = []
deal_status_transition_matrix DealStatus.cancelled = []

abbrev pub lead_status_transition_matrix : LeadStatus → List LeadStatus
lead_status_transition_matrix LeadStatus.new = LeadStatus.in_processing ∷ LeadStatus.cancelled ∷ []
lead_status_transition_matrix LeadStatus.in_processing = []
lead_status_transition_matrix LeadStatus.cancelled = []

abbrev pub order_status_transition_matrix : OrderStatus → List OrderStatus
order_status_transition_matrix OrderStatus.assembling =
    OrderStatus.ready_for_partial_shipment ∷ OrderStatus.ready_for_shipment ∷ []
order_status_transition_matrix OrderStatus.ready_for_partial_shipment =
    OrderStatus.ready_for_shipment ∷ OrderStatus.partially_shipped ∷ []
order_status_transition_matrix OrderStatus.ready_for_shipment =
    OrderStatus.partially_shipped ∷ OrderStatus.shipped ∷ []
order_status_transition_matrix OrderStatus.partially_shipped =
    OrderStatus.ready_for_shipment ∷ OrderStatus.shipped ∷ []
order_status_transition_matrix OrderStatus.shipped = []

abbrev pub order_control_overlay_transition_matrix :
    OrderControlOverlayStatus → List OrderControlOverlayStatus
order_control_overlay_transition_matrix OrderControlOverlayStatus.none =
    OrderControlOverlayStatus.on_control ∷ []
order_control_overlay_transition_matrix OrderControlOverlayStatus.on_control =
    OrderControlOverlayStatus.none ∷ OrderControlOverlayStatus.problem ∷ []
order_control_overlay_transition_matrix OrderControlOverlayStatus.problem =
    OrderControlOverlayStatus.none ∷ []

abbrev pub delivery_task_status_transition_matrix : DeliveryTaskStatus → List DeliveryTaskStatus
delivery_task_status_transition_matrix DeliveryTaskStatus.planned =
    DeliveryTaskStatus.assigned ∷ DeliveryTaskStatus.rescheduled ∷ DeliveryTaskStatus.failed ∷ []
delivery_task_status_transition_matrix DeliveryTaskStatus.assigned =
    DeliveryTaskStatus.in_transit ∷ DeliveryTaskStatus.rescheduled ∷ DeliveryTaskStatus.failed ∷ []
delivery_task_status_transition_matrix DeliveryTaskStatus.in_transit =
    DeliveryTaskStatus.delivered ∷ DeliveryTaskStatus.failed ∷ []
delivery_task_status_transition_matrix DeliveryTaskStatus.rescheduled = []
delivery_task_status_transition_matrix DeliveryTaskStatus.delivered = []
delivery_task_status_transition_matrix DeliveryTaskStatus.failed = []

abbrev pub return_request_status_transition_matrix : ReturnRequestStatus → List ReturnRequestStatus
return_request_status_transition_matrix ReturnRequestStatus.created =
    ReturnRequestStatus.confirmed ∷ []
return_request_status_transition_matrix ReturnRequestStatus.confirmed =
    ReturnRequestStatus.processed ∷ []
return_request_status_transition_matrix ReturnRequestStatus.processed =
    ReturnRequestStatus.closed ∷ []
return_request_status_transition_matrix ReturnRequestStatus.closed = []

abbrev pub payment_status_transition_matrix : PaymentStatus → List PaymentStatus
payment_status_transition_matrix PaymentStatus.pending =
    PaymentStatus.completed ∷ PaymentStatus.rejected ∷ []
payment_status_transition_matrix PaymentStatus.completed = PaymentStatus.refunded ∷ []
payment_status_transition_matrix PaymentStatus.refunded = []
payment_status_transition_matrix PaymentStatus.rejected = []

abbrev pub supplier_request_status_transition_matrix :
    SupplierRequestStatus → List SupplierRequestStatus
supplier_request_status_transition_matrix SupplierRequestStatus.formed =
    SupplierRequestStatus.confirmed_by_supplier ∷ []
supplier_request_status_transition_matrix SupplierRequestStatus.confirmed_by_supplier =
    SupplierRequestStatus.paid ∷ []
supplier_request_status_transition_matrix SupplierRequestStatus.paid =
    SupplierRequestStatus.stocked ∷ []
supplier_request_status_transition_matrix SupplierRequestStatus.stocked = []

unfoldable pub assert_deal_status_transition :
    DealStatus → DealStatus → Option (StatusTransitionError DealStatus)
unfolding assert_transition
assert_deal_status_transition = assert_transition deal_status_transition_matrix "crm.deal"

unfoldable pub assert_lead_status_transition :
    LeadStatus → LeadStatus → Option (StatusTransitionError LeadStatus)
unfolding assert_transition
assert_lead_status_transition = assert_transition lead_status_transition_matrix "crm.lead"

unfoldable pub assert_order_status_transition :
    OrderStatus → OrderStatus → Option (StatusTransitionError OrderStatus)
unfolding assert_transition
assert_order_status_transition = assert_transition order_status_transition_matrix "orders.order"

unfoldable pub assert_order_control_overlay_transition :
    OrderControlOverlayStatus
    → OrderControlOverlayStatus
    → Option (StatusTransitionError OrderControlOverlayStatus)
unfolding assert_transition
assert_order_control_overlay_transition =
    assert_transition order_control_overlay_transition_matrix "orders.order_payment_control_status"

unfoldable pub assert_delivery_task_status_transition :
    DeliveryTaskStatus → DeliveryTaskStatus → Option (StatusTransitionError DeliveryTaskStatus)
unfolding assert_transition
assert_delivery_task_status_transition =
    assert_transition delivery_task_status_transition_matrix "logistics.delivery_task"

unfoldable pub assert_return_request_status_transition :
    ReturnRequestStatus → ReturnRequestStatus → Option (StatusTransitionError ReturnRequestStatus)
unfolding assert_transition
assert_return_request_status_transition =
    assert_transition return_request_status_transition_matrix "orders.return_request"

unfoldable pub assert_payment_status_transition :
    PaymentStatus → PaymentStatus → Option (StatusTransitionError PaymentStatus)
unfolding assert_transition
assert_payment_status_transition =
    assert_transition payment_status_transition_matrix "payments.payment"

unfoldable pub assert_supplier_request_status_transition :
    SupplierRequestStatus
    → SupplierRequestStatus
    → Option (StatusTransitionError SupplierRequestStatus)
unfolding assert_transition
assert_supplier_request_status_transition =
    assert_transition supplier_request_status_transition_matrix "inventory.supplier_request"

-- `is_entering_delivery_flow_status`
unfoldable pub is_entering_delivery_flow_status : OrderStatus → Bool
is_entering_delivery_flow_status status =
    status == OrderStatus.partially_shipped || status == OrderStatus.shipped
