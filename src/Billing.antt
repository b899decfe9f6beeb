-- ===== src/Billing.antt =====
-- src/billing: plans, quota checks, the events of Stripe and the grants of an operator.
pub mod Plans
pub mod Limits
pub mod Webhooks
pub mod Events
pub mod Manual
pub mod Notices
