-- ===== src/Email.antt =====
-- src/email: acceptance, delivery and retry of inbound mail.
pub mod AllowRules
pub mod Inbound
pub mod Queue
pub mod Deliver
pub mod Outcome
pub mod Retry
pub mod Runner
pub mod Worker
