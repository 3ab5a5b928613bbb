-- ===== src/Payments/Ledger/Transactions.antt =====
-- The transactions of the four payment commands as updates of the books.
pub mod Intake
pub mod Confirm
pub mod Reject
pub mod Refund
