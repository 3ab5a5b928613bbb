-- ===== src/Tests.antt =====
-- Runs of the model on small inputs, and an instance of each theorem that has hypotheses.
mod Auth
mod Guards
mod Orders
mod Payments
mod Replay
mod Totality
mod Fulfillments
mod Returns
mod Supply
