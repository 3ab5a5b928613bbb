-- ===== src/Records.antt =====
-- apps/api/prisma/schema.prisma: the rows of the tables that the modelled commands read and write,
-- less the columns that no command reads (versions, created/updated stamps, deletion details).
-- An amount is a number of hundredths (`Decimal(14, 2)`), an instant a number of milliseconds. The
-- `responsible_user_id` of an order is that of its deal, which the client joins in.
use sanmarino_crm.Base.{ℕ, Bool, Option, List, Text, Eq}
use sanmarino_crm.Status.{
  OrderStatus, OrderControlOverlayStatus, ReturnRequestStatus, PaymentStatus, PaymentExternalSource,
  PaymentMethod, CashOperationType, FinanceEntryType, FulfillmentStatus, ReservationStatus,
  InventoryMovementType, InventoryBucketStatus, OrderFulfillmentType, StockLockStatus,
  SupplierRequestStatus,
}

pub record Order : Type 0 where
  pub id : Text
  pub status : OrderStatus
  pub payment_control_status : OrderControlOverlayStatus
  pub payment_control_due_at : Option ℕ
  pub total_amount : ℕ
  pub ready_for_partial_shipment_at : Option ℕ
  pub ready_for_shipment_at : Option ℕ
  pub partially_shipped_at : Option ℕ
  pub shipped_at : Option ℕ
  pub responsible_user_id : Text
  pub fulfillment_type : OrderFulfillmentType
  pub is_deleted : Bool

-- A quantity is a number of millionths (`Decimal(14, 3)`).
pub record OrderItem : Type 0 where
  pub id : Text
  pub order_id : Text
  pub product_id : Text
  pub qty : ℕ

pub record Fulfillment : Type 0 where
  pub id : Text
  pub order_id : Text
  pub status : FulfillmentStatus
  pub fulfillment_type : OrderFulfillmentType
  pub delivery_task_id : Option Text
  pub pickup_window_id : Option Text
  pub fulfilled_at : Option ℕ
  pub created_by : Text

-- The parts of these rows that the commands read.
pub record DeliveryTask : Type 0 where
  pub id : Text
  pub order_id : Text

pub record PickupWindow : Type 0 where
  pub id : Text

pub record Product : Type 0 where
  pub id : Text

pub record Warehouse : Type 0 where
  pub id : Text

pub record Deal : Type 0 where
  pub id : Text

pub record StockLock : Type 0 where
  pub id : Text
  pub product_id : Text
  pub warehouse_id : Text
  pub deal_id : Option Text
  pub qty : ℕ
  pub status : StockLockStatus
  pub idempotency_key : Option Text
  pub expires_at : ℕ
  pub released_at : Option ℕ
  pub created_by : Text

pub record SupplierRequest : Type 0 where
  pub id : Text
  pub status : SupplierRequestStatus
  pub expected_supply_date : Text
  pub supplier_document_url : Option Text
  pub confirmed_by : Option Text
  pub paid_by : Option Text
  pub paid_at : Option ℕ
  pub stocked_by : Option Text
  pub stocked_at : Option ℕ

pub record Reservation : Type 0 where
  pub id : Text
  pub order_id : Text
  pub product_id : Text
  pub warehouse_id : Text
  pub qty : ℕ
  pub status : ReservationStatus
  pub expires_at : ℕ
  pub released_at : Option ℕ
  pub created_by : Text
  pub created_at : ℕ

-- A quantity is in millionths too (`Decimal(14, 3)`).
pub record InventoryMovement : Type 0 where
  pub id : Text
  pub movement_type : InventoryMovementType
  pub product_id : Text
  pub warehouse_id : Text
  pub qty : ℕ
  pub bucket_from : Option InventoryBucketStatus
  pub bucket_to : Option InventoryBucketStatus
  pub order_id : Option Text
  pub fulfillment_id : Option Text
  pub return_request_id : Option Text
  pub reservation_id : Option Text
  pub reason : Option Text
  pub performed_by : Text
  pub created_at : ℕ

pub record FulfillmentItem : Type 0 where
  pub id : Text
  pub fulfillment_id : Text
  pub order_item_id : Text
  pub qty : ℕ
  pub created_at : ℕ

pub record Payment : Type 0 where
  pub id : Text
  pub payment_number : Text
  pub order_id : Text
  pub status : PaymentStatus
  pub external_source : PaymentExternalSource
  pub external_event_id : Text
  pub payment_method : PaymentMethod
  pub amount : ℕ
  pub refunded_amount : ℕ
  pub received_at : Option ℕ
  pub intaked_at : ℕ
  pub confirmed_by : Option Text
  pub confirmed_at : Option ℕ
  pub rejected_at : Option ℕ
  pub external_reference : Option Text
  pub created_by : Text
  pub is_deleted : Bool

pub record ReturnRequest : Type 0 where
  pub id : Text
  pub order_id : Text
  pub status : ReturnRequestStatus
  pub requested_by_user_id : Text
  pub reason : Text
  pub requested_refund_amount : Option ℕ
  pub realization_anchor_at : Option ℕ
  pub confirmed_at : Option ℕ
  pub requires_ceo_approval : Bool
  pub ceo_approved_by : Option Text
  pub ceo_approved_at : Option ℕ
  pub processed_at : Option ℕ
  pub closed_at : Option ℕ
  pub is_deleted : Bool

-- `ReturnRequestItemResolution`. The column is a text, which `normalize_resolution` reads back; the
-- service writes no other.
pub data ReturnRequestItemResolution : Type 0 where
  return_to_quarantine writeoff refund_only : ReturnRequestItemResolution

pub ReturnRequestItemResolution-discrete : Discrete ReturnRequestItemResolution
ReturnRequestItemResolution-discrete = hlevel

instance unfoldable pub return_request_item_resolution_eq : Eq ReturnRequestItemResolution
unfolding ReturnRequestItemResolution-discrete
return_request_item_resolution_eq = record { dec = ReturnRequestItemResolution-discrete }

pub record ReturnRequestItem : Type 0 where
  pub id : Text
  pub return_request_id : Text
  pub order_item_id : Text
  pub qty : ℕ
  pub resolution : ReturnRequestItemResolution
  pub created_at : ℕ

pub record CashOperation : Type 0 where
  pub id : Text
  pub payment_id : Option Text
  pub return_request_id : Option Text
  pub operation_type : CashOperationType
  pub amount : ℕ
  pub performed_at : ℕ
  pub external_reference : Option Text
  pub created_by : Text

pub record FinanceEntry : Type 0 where
  pub id : Text
  pub entry_type : FinanceEntryType
  pub order_id : Option Text
  pub payment_id : Option Text
  pub cash_operation_id : Option Text
  pub return_request_id : Option Text
  pub amount : ℕ
  pub recognized_at : ℕ
  pub description : Text
  pub created_by : Text

pub data IdempotencyStatus : Type 0 where
  started completed failed : IdempotencyStatus

pub IdempotencyStatus-discrete : Discrete IdempotencyStatus
IdempotencyStatus-discrete = hlevel

instance unfoldable pub idempotency_status_eq : Eq IdempotencyStatus
unfolding IdempotencyStatus-discrete
idempotency_status_eq = record { dec = IdempotencyStatus-discrete }

-- The JSON that a command stores as its answer; `failure` holds a message.
pub data ResponseBody : Type 0 where
  payment_reference : Text → ResponseBody
  refund_reference : Text → Text → ResponseBody
  fulfillment_reference : Text → ResponseBody
  return_request_reference : Text → ResponseBody
  failure : ResponseBody

pub record IdempotencyRecord : Type 0 where
  pub id : Text
  pub scope : Text
  pub idempotency_key : Text
  pub request_hash : Text
  pub status : IdempotencyStatus
  pub response_status_code : Option ℕ
  pub response_body : Option ResponseBody
  pub locked_until : Option ℕ

-- `auth.contract.ts`: `bootstrap_role_codes`
pub data RoleCode : Type 0 where
  admin seller warehouse logistics finance ceo driver marketing : RoleCode

pub RoleCode-discrete : Discrete RoleCode
RoleCode-discrete = hlevel

instance unfoldable pub role_code_eq : Eq RoleCode
unfolding RoleCode-discrete
role_code_eq = record { dec = RoleCode-discrete }

pub record Actor : Type 0 where
  pub user_id : Text
  pub role_codes : List RoleCode

-- `eventType` and `payload` of an outbox record; the aggregate is the first identifier.
pub data OutboxEvent : Type 0 where
  external_fact_intaked : Text → Text → PaymentExternalSource → Text → ℕ → OutboxEvent
  external_fact_confirmed : Text → Text → ℕ → ℕ → Option RoleCode → OutboxEvent
  payment_completed : Text → Text → ℕ → ℕ → PaymentMethod → OutboxEvent
  revenue_recognized : Text → Text → Text → ℕ → ℕ → OutboxEvent
  external_fact_rejected : Text → Text → Option Text → ℕ → OutboxEvent
  return_request_created : Text → Text → Text → ℕ → OutboxEvent
  return_request_confirmed : Text → ℕ → ℕ → Bool → Option RoleCode → OutboxEvent
  return_request_processed : Text → ℕ → ℕ → OutboxEvent
  return_request_closed : Text → ℕ → OutboxEvent
  refund_completed : Text → Text → Text → ℕ → Text → Text → ℕ → OutboxEvent

pub record OutboxRecord : Type 0 where
  pub id : Text
  pub event : OutboxEvent

pub data AuditAction : Type 0 where
  intake confirm reject refund : AuditAction

-- `build_return_request_audit_event_id`
pub data ReturnAction : Type 0 where
  create confirm process close : ReturnAction

-- `action` of an audit record
pub data LoggedAction : Type 0 where
  payment_action : AuditAction → LoggedAction
  confirm_execution : LoggedAction
  return_action : ReturnAction → LoggedAction

pub data AuditPayload : Type 0 where
  intake_payload : Text → PaymentExternalSource → Text → ℕ → AuditPayload
  confirm_payload : Text → ℕ → Text → Text → AuditPayload
  reject_payload : Text → Option Text → AuditPayload
  refund_payload : Text → Text → ℕ → Text → Text → AuditPayload
  return_create_payload : Text → Text → Option ℕ → AuditPayload
  return_confirm_payload : Text → ℕ → Bool → AuditPayload
  return_process_payload : Text → ℕ → AuditPayload
  return_close_payload : Text → AuditPayload
  execution_payload : Text → ℕ → Option OrderStatus → ℕ → AuditPayload

pub record AuditLogRecord : Type 0 where
  pub id : Text
  pub event_id : Text
  pub occurred_at : ℕ
  pub action : LoggedAction
  pub entity_id : Text
  pub actor_user_id : Text
  pub request_id : Option Text
  pub correlation_id : Option Text
  pub payload : AuditPayload
