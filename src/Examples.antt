-- ===== src/Examples.antt =====
-- Concrete tables, mails and answers on which the theorems are run.
pub mod Data
mod Mail
mod Payments
mod Workers
mod Deliveries
mod Routes
mod Retries
mod Sending
mod Limits
mod Grants
mod Access
