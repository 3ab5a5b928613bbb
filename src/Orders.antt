-- ===== src/Orders.antt =====
-- apps/api/src/modules/orders.
pub mod Shipment
pub mod Read
pub mod Service
pub mod Steps
pub mod Moves
pub mod Laws
pub mod Issue
pub mod Fulfillments
pub mod Returns
