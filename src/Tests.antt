-- ===== src/Tests.antt =====
-- Concrete mails, mailboxes and listeners, and the theorems of the other modules applied to them.
pub mod Data
pub mod Machine
pub mod Codecs
pub mod Lines
pub mod Thread
pub mod Composed
pub mod Closing
pub mod Watching
pub mod Steps
pub mod Typing
pub mod Talks
