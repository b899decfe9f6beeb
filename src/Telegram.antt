-- ===== src/Telegram.antt =====
-- src/telegram: sending, its errors, and the chats that mail goes to.
pub mod Errors
pub mod ChatMigration
pub mod Sender
pub mod Session
pub mod Cache
pub mod OrphanProbe
pub mod MoveTarget
pub mod Authorization
