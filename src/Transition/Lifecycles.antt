-- ===== src/Transition/Lifecycles.antt =====
-- What the matrices of apps/api/src/modules/transactional allow over a whole history of an entity.
use sanmarino_crm.Base.{ℕ, ◌<◌, ◌≡◌, refl, ◌⊎◌, inl, inr, true, none, arith, contains, String, ◌∙◌}
use mathlib.Core.Path.{subst}
use sanmarino_crm.Status.{
  DealStatus, deal_status_eq, LeadStatus, lead_status_eq, OrderStatus, order_status_eq,
  DeliveryTaskStatus, delivery_task_status_eq, ReturnRequestStatus, return_request_status_eq,
  PaymentStatus, payment_status_eq, SupplierRequestStatus, supplier_request_status_eq,
}
use sanmarino_crm.Transition.{assert_transition}
use sanmarino_crm.Transition.Matrices.{
  deal_status_transition_matrix, lead_status_transition_matrix, order_status_transition_matrix,
  delivery_task_status_transition_matrix, return_request_status_transition_matrix,
  payment_status_transition_matrix, supplier_request_status_transition_matrix,
}
use sanmarino_crm.Transition.Reach.{Reach, here, next, assert_transition_iff, Reach-antisymm}

deal_rank : DealStatus → ℕ
deal_rank DealStatus.in_progress = 0
deal_rank _ = 1

deal_climbs :
    (a b : DealStatus)
    → contains (deal_status_transition_matrix a) b ≡ true
    → deal_rank a < deal_rank b
unfolding deal_rank
deal_climbs a b h = ground arith

lead_rank : LeadStatus → ℕ
lead_rank LeadStatus.new = 0
lead_rank _ = 1

lead_climbs :
    (a b : LeadStatus)
    → contains (lead_status_transition_matrix a) b ≡ true
    → lead_rank a < lead_rank b
unfolding lead_rank
lead_climbs a b h = ground arith

task_rank : DeliveryTaskStatus → ℕ
task_rank DeliveryTaskStatus.planned = 0
task_rank DeliveryTaskStatus.assigned = 1
task_rank DeliveryTaskStatus.in_transit = 2
task_rank _ = 3

task_climbs :
    (a b : DeliveryTaskStatus)
    → contains (delivery_task_status_transition_matrix a) b ≡ true
    → task_rank a < task_rank b
unfolding task_rank
task_climbs a b h = ground arith

return_rank : ReturnRequestStatus → ℕ
return_rank ReturnRequestStatus.created = 0
return_rank ReturnRequestStatus.confirmed = 1
return_rank ReturnRequestStatus.processed = 2
return_rank ReturnRequestStatus.closed = 3

return_climbs :
    (a b : ReturnRequestStatus)
    → contains (return_request_status_transition_matrix a) b ≡ true
    → return_rank a < return_rank b
unfolding return_rank
return_climbs a b h = ground arith

payment_rank : PaymentStatus → ℕ
payment_rank PaymentStatus.pending = 0
payment_rank PaymentStatus.completed = 1
payment_rank _ = 2

payment_climbs :
    (a b : PaymentStatus)
    → contains (payment_status_transition_matrix a) b ≡ true
    → payment_rank a < payment_rank b
unfolding payment_rank
payment_climbs a b h = ground arith

supplier_rank : SupplierRequestStatus → ℕ
supplier_rank SupplierRequestStatus.formed = 0
supplier_rank SupplierRequestStatus.confirmed_by_supplier = 1
supplier_rank SupplierRequestStatus.paid = 2
supplier_rank SupplierRequestStatus.stocked = 3

supplier_climbs :
    (a b : SupplierRequestStatus)
    → contains (supplier_request_status_transition_matrix a) b ≡ true
    → supplier_rank a < supplier_rank b
unfolding supplier_rank
supplier_climbs a b h = ground arith

-- The guards of deals, leads, delivery tasks, return requests, payments and supplier requests let no
-- entity come back to a status that it has left.
pub lifecycles_never_return :
    ((a b : DealStatus)
      → Reach deal_status_transition_matrix a b
      → Reach deal_status_transition_matrix b a
      → a ≡ b)
    × ((a b : LeadStatus)
        → Reach lead_status_transition_matrix a b
        → Reach lead_status_transition_matrix b a
        → a ≡ b)
    × ((a b : DeliveryTaskStatus)
        → Reach delivery_task_status_transition_matrix a b
        → Reach delivery_task_status_transition_matrix b a
        → a ≡ b)
    × ((a b : ReturnRequestStatus)
        → Reach return_request_status_transition_matrix a b
        → Reach return_request_status_transition_matrix b a
        → a ≡ b)
    × ((a b : PaymentStatus)
        → Reach payment_status_transition_matrix a b
        → Reach payment_status_transition_matrix b a
        → a ≡ b)
    × ((a b : SupplierRequestStatus)
        → Reach supplier_request_status_transition_matrix a b
        → Reach supplier_request_status_transition_matrix b a
        → a ≡ b)
lifecycles_never_return = (
  Reach-antisymm _ deal_rank deal_climbs,
  Reach-antisymm _ lead_rank lead_climbs,
  Reach-antisymm _ task_rank task_climbs,
  Reach-antisymm _ return_rank return_climbs,
  Reach-antisymm _ payment_rank payment_climbs,
  Reach-antisymm _ supplier_rank supplier_climbs,
)

-- A payment that its guard has led to `refunded` was `refunded` at the start or has been `completed`.
pub refunded_needs_completed :
    (a b : PaymentStatus)
    → Reach payment_status_transition_matrix a b
    → b ≡ PaymentStatus.refunded
    → (a ≡ PaymentStatus.refunded)
      ⊎ Reach payment_status_transition_matrix a PaymentStatus.completed
refunded_needs_completed a b here e = inl e
refunded_needs_completed a b (next {mid = m} r n h) e =
    elim ((assert_transition_iff payment_status_transition_matrix n m b).1 h) [
      | inl same ↦ refunded_needs_completed a m r (same ∙ e)
      | inr listed ↦ inr (subst (Reach _ a) (before m b listed e) r)
    ]
  where
    before :
        (m b : PaymentStatus)
        → contains (payment_status_transition_matrix m) b ≡ true
        → b ≡ PaymentStatus.refunded
        → m ≡ PaymentStatus.completed
    before m b h e = ground arith

abbrev OrderReach : OrderStatus → OrderStatus → Type 0
OrderReach = Reach order_status_transition_matrix

order_step :
    (n : String) (a b : OrderStatus)
    → assert_transition order_status_transition_matrix n a b ≡ none
    → (a ≡ OrderStatus.shipped → b ≡ OrderStatus.shipped)
      × (b ≡ OrderStatus.assembling → a ≡ OrderStatus.assembling)
unfolding assert_transition
order_step n a b h = (λ e. ground arith, λ e. ground arith)

shipped_stays :
    (a b : OrderStatus) → OrderReach a b → a ≡ OrderStatus.shipped → b ≡ OrderStatus.shipped
shipped_stays a b here e = e
shipped_stays a b (next {mid = m} r n h) e = (order_step n m b h).0 (shipped_stays a m r e)

assembling_first :
    (a b : OrderStatus) → OrderReach a b → b ≡ OrderStatus.assembling → a ≡ OrderStatus.assembling
assembling_first a b here e = e
assembling_first a b (next {mid = m} r n h) e = assembling_first a m r ((order_step n m b h).1 e)

can_ship : (s : OrderStatus) → OrderReach s OrderStatus.shipped
unfolding assert_transition order_status_eq
can_ship OrderStatus.assembling =
    next {mid = OrderStatus.ready_for_shipment} (next here "orders.order" refl) "orders.order" refl
can_ship OrderStatus.ready_for_partial_shipment =
    next {mid = OrderStatus.partially_shipped} (next here "orders.order" refl) "orders.order" refl
can_ship OrderStatus.ready_for_shipment = next here "orders.order" refl
can_ship OrderStatus.partially_shipped = next here "orders.order" refl
can_ship OrderStatus.shipped = here

-- An order can be shipped from every status, stays `shipped` once it is, and never comes back to
-- `assembling`.
pub order_lifecycle :
    ((s : OrderStatus) → OrderReach s OrderStatus.shipped)
    × ((s : OrderStatus) → OrderReach OrderStatus.shipped s → s ≡ OrderStatus.shipped)
    × ((s : OrderStatus) → OrderReach s OrderStatus.assembling → s ≡ OrderStatus.assembling)
order_lifecycle = (can_ship, λ s r. shipped_stays _ s r refl, λ s r. assembling_first s _ r refl)
