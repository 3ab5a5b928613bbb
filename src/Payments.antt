-- ===== src/Payments.antt =====
-- apps/api/src/modules/payments/payments.service.ts, a child for each part of the service.
pub mod Normalize
pub mod Digest
pub mod Access
pub mod Idempotency
pub mod Overlay
pub mod Writes
pub mod Intake
pub mod Confirm
pub mod Reject
pub mod Refund
pub mod Calls
pub mod Replay
pub mod Totality
pub mod Ledger
