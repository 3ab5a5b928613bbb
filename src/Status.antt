-- ===== src/Status.antt =====
-- apps/api/src/modules/transactional/shared/status.contract.ts: the statuses and kinds of the
-- entities, and the equality that the source writes `===`.
use sanmarino_crm.Base.{Bool, true, false, Eq}

pub data DealStatus : Type 0 where
  in_progress converted_to_order cancelled : DealStatus

pub DealStatus-discrete : Discrete DealStatus
DealStatus-discrete = hlevel

instance unfoldable pub deal_status_eq : Eq DealStatus
unfolding DealStatus-discrete
deal_status_eq = record { dec = DealStatus-discrete }

pub data LeadStatus : Type 0 where
  new in_processing cancelled : LeadStatus

pub LeadStatus-discrete : Discrete LeadStatus
LeadStatus-discrete = hlevel

instance unfoldable pub lead_status_eq : Eq LeadStatus
unfolding LeadStatus-discrete
lead_status_eq = record { dec = LeadStatus-discrete }

pub data OrderStatus : Type 0 where
  assembling ready_for_partial_shipment ready_for_shipment partially_shipped : OrderStatus
  shipped : OrderStatus

pub OrderStatus-discrete : Discrete OrderStatus
OrderStatus-discrete = hlevel

instance unfoldable pub order_status_eq : Eq OrderStatus
unfolding OrderStatus-discrete
order_status_eq = record { dec = OrderStatus-discrete }

pub data OrderControlOverlayStatus : Type 0 where
  none on_control problem : OrderControlOverlayStatus

pub OrderControlOverlayStatus-discrete : Discrete OrderControlOverlayStatus
OrderControlOverlayStatus-discrete = hlevel

instance unfoldable pub order_control_overlay_status_eq : Eq OrderControlOverlayStatus
unfolding OrderControlOverlayStatus-discrete
order_control_overlay_status_eq = record { dec = OrderControlOverlayStatus-discrete }

pub data OrderFulfillmentType : Type 0 where
  delivery pickup manual : OrderFulfillmentType

pub OrderFulfillmentType-discrete : Discrete OrderFulfillmentType
OrderFulfillmentType-discrete = hlevel

instance unfoldable pub order_fulfillment_type_eq : Eq OrderFulfillmentType
unfolding OrderFulfillmentType-discrete
order_fulfillment_type_eq = record { dec = OrderFulfillmentType-discrete }

pub data FulfillmentStatus : Type 0 where
  pending completed failed cancelled : FulfillmentStatus

pub FulfillmentStatus-discrete : Discrete FulfillmentStatus
FulfillmentStatus-discrete = hlevel

instance unfoldable pub fulfillment_status_eq : Eq FulfillmentStatus
unfolding FulfillmentStatus-discrete
fulfillment_status_eq = record { dec = FulfillmentStatus-discrete }

pub data DeliveryTaskStatus : Type 0 where
  planned assigned in_transit delivered failed rescheduled : DeliveryTaskStatus

pub DeliveryTaskStatus-discrete : Discrete DeliveryTaskStatus
DeliveryTaskStatus-discrete = hlevel

instance unfoldable pub delivery_task_status_eq : Eq DeliveryTaskStatus
unfolding DeliveryTaskStatus-discrete
delivery_task_status_eq = record { dec = DeliveryTaskStatus-discrete }

pub data ReturnRequestStatus : Type 0 where
  created confirmed processed closed : ReturnRequestStatus

pub ReturnRequestStatus-discrete : Discrete ReturnRequestStatus
ReturnRequestStatus-discrete = hlevel

instance unfoldable pub return_request_status_eq : Eq ReturnRequestStatus
unfolding ReturnRequestStatus-discrete
return_request_status_eq = record { dec = ReturnRequestStatus-discrete }

pub data SupplierRequestStatus : Type 0 where
  formed confirmed_by_supplier paid stocked : SupplierRequestStatus

pub SupplierRequestStatus-discrete : Discrete SupplierRequestStatus
SupplierRequestStatus-discrete = hlevel

instance unfoldable pub supplier_request_status_eq : Eq SupplierRequestStatus
unfolding SupplierRequestStatus-discrete
supplier_request_status_eq = record { dec = SupplierRequestStatus-discrete }

pub data PaymentStatus : Type 0 where
  pending completed refunded rejected : PaymentStatus

pub PaymentStatus-discrete : Discrete PaymentStatus
PaymentStatus-discrete = hlevel

instance unfoldable pub payment_status_eq : Eq PaymentStatus
unfolding PaymentStatus-discrete
payment_status_eq = record { dec = PaymentStatus-discrete }

pub data PaymentExternalSource : Type 0 where
  bank acquiring cash_register manual_import other : PaymentExternalSource

pub PaymentExternalSource-discrete : Discrete PaymentExternalSource
PaymentExternalSource-discrete = hlevel

instance unfoldable pub payment_external_source_eq : Eq PaymentExternalSource
unfolding PaymentExternalSource-discrete
payment_external_source_eq = record { dec = PaymentExternalSource-discrete }

pub data PaymentMethod : Type 0 where
  cash bank_transfer card sbp other : PaymentMethod

pub PaymentMethod-discrete : Discrete PaymentMethod
PaymentMethod-discrete = hlevel

instance unfoldable pub payment_method_eq : Eq PaymentMethod
unfolding PaymentMethod-discrete
payment_method_eq = record { dec = PaymentMethod-discrete }

pub data CashOperationType : Type 0 where
  cash_in cash_out refund : CashOperationType

pub CashOperationType-discrete : Discrete CashOperationType
CashOperationType-discrete = hlevel

instance unfoldable pub cash_operation_type_eq : Eq CashOperationType
unfolding CashOperationType-discrete
cash_operation_type_eq = record { dec = CashOperationType-discrete }

pub data FinanceEntryType : Type 0 where
  income expense adjustment : FinanceEntryType

pub FinanceEntryType-discrete : Discrete FinanceEntryType
FinanceEntryType-discrete = hlevel

instance unfoldable pub finance_entry_type_eq : Eq FinanceEntryType
unfolding FinanceEntryType-discrete
finance_entry_type_eq = record { dec = FinanceEntryType-discrete }

-- `is_active_delivery_task_status`: `active_delivery_task_statuses.includes(status)`
unfoldable pub is_active_delivery_task_status : DeliveryTaskStatus → Bool
is_active_delivery_task_status DeliveryTaskStatus.delivered = false
is_active_delivery_task_status DeliveryTaskStatus.failed = false
is_active_delivery_task_status _ = true

pub data StockLockStatus : Type 0 where
  active expired released promoted : StockLockStatus

pub StockLockStatus-discrete : Discrete StockLockStatus
StockLockStatus-discrete = hlevel

instance unfoldable pub stock_lock_status_eq : Eq StockLockStatus
unfolding StockLockStatus-discrete
stock_lock_status_eq = record { dec = StockLockStatus-discrete }

pub data ReservationStatus : Type 0 where
  active released expired consumed cancelled : ReservationStatus

pub ReservationStatus-discrete : Discrete ReservationStatus
ReservationStatus-discrete = hlevel

instance unfoldable pub reservation_status_eq : Eq ReservationStatus
unfolding ReservationStatus-discrete
reservation_status_eq = record { dec = ReservationStatus-discrete }

pub data InventoryMovementType : Type 0 where
  receipt issue return_to_stock writeoff adjustment reservation_create : InventoryMovementType
  reservation_release transfer_to_quarantine release_from_quarantine : InventoryMovementType

pub InventoryMovementType-discrete : Discrete InventoryMovementType
InventoryMovementType-discrete = hlevel

instance unfoldable pub inventory_movement_type_eq : Eq InventoryMovementType
unfolding InventoryMovementType-discrete
inventory_movement_type_eq = record { dec = InventoryMovementType-discrete }

pub data InventoryBucketStatus : Type 0 where
  on_hand reserved available quarantine : InventoryBucketStatus

pub InventoryBucketStatus-discrete : Discrete InventoryBucketStatus
InventoryBucketStatus-discrete = hlevel

instance unfoldable pub inventory_bucket_status_eq : Eq InventoryBucketStatus
unfolding InventoryBucketStatus-discrete
inventory_bucket_status_eq = record { dec = InventoryBucketStatus-discrete }
