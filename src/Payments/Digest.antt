-- ===== src/Payments/Digest.antt =====
-- What payments.service.ts, fulfillments.service.ts and return-requests.service.ts hash by SHA-256 (`node:crypto`, which is not part of this repository:
-- the digest of each of these objects is a parameter of the commands), and the texts made from it.
use sanmarino_crm.Base.{
  ℕ, zero, suc, ◌-◌, Option, List, [], ◌∷◌, ◌++◌, Text, text, leb, ◌&&◌, if◌then◌else◌,
}
use sanmarino_crm.Records.{
  AuditAction, intake, confirm, reject, refund, ReturnAction, ReturnRequestItemResolution,
}
use sanmarino_crm.Status.{PaymentMethod, PaymentExternalSource}

pub data HashInput : Type 0 where
  intake_request : Text → ℕ → PaymentMethod → PaymentExternalSource → Text → Option Text → HashInput
  confirm_request : Text → HashInput
  reject_request : Text → Option Text → HashInput
  refund_request : Text → Text → ℕ → Option Text → HashInput
  payment_number : Text → Text → HashInput
  audit_event : AuditAction → Text → Text → HashInput
  confirm_execution_request : Text → HashInput
  execution_event : Text → Text → HashInput
  create_return_request :
      Text → Text → Option ℕ → List (Text × ℕ × ReturnRequestItemResolution) → HashInput
  simple_return_request : Text → HashInput
  return_event : ReturnAction → Text → Text → HashInput

-- `slice(0, n)`
unfoldable pub take : ℕ → Text → Text
take zero t = []
take (suc n) [] = []
take (suc n) (c ∷ t) = c ∷ take n t

-- `toUpperCase` of hexadecimal digits
to_upper_case : Text → Text
to_upper_case [] = []
to_upper_case (c ∷ t) = (if leb b'a' c && leb c b'z' then c - 32 else c) ∷ to_upper_case t

abbrev action_name : AuditAction → Text
action_name intake = text "intake"
action_name confirm = text "confirm"
action_name reject = text "reject"
action_name refund = text "refund"

module _ (digest : HashInput → Text) where
  unfoldable pub build_payment_number : Text → Text → Text
  unfolding take to_upper_case
  build_payment_number order_id idempotency_key =
      text "PAY-"
      ++ to_upper_case (take 20 (digest (HashInput.payment_number order_id idempotency_key)))

  unfoldable pub build_payment_audit_event_id : AuditAction → Text → Text → Text
  unfolding take
  build_payment_audit_event_id action payment_id idempotency_key =
      text "payment_"
      ++ action_name action
      ++ text "_"
      ++ take 40 (digest (audit_event action payment_id idempotency_key))
