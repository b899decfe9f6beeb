-- ===== src/Activation.antt =====
-- src/activation: the bounded queue of the notices to an alias' owner.
pub mod Slots
pub mod NoticeQueue
