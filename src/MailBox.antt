-- ===== src/MailBox.antt =====
-- src/headers/mail-box.h, class MailBox: the queues, and the four ways to write a mail.
pub mod State
pub mod Queue
pub mod Commands
pub mod Udp
pub mod Tcp
pub mod Local
pub mod Wire
pub mod Variants
pub mod Laws
pub mod Typed
pub mod Typing
