-- ===== src/Program.antt =====
-- src/main.cpp: the two threads on one mailbox, as steps of either thread in any order.
pub mod State
pub mod Steps
pub mod Sound
pub mod Moves
pub mod Keeps
pub mod Queue
pub mod Numbers
pub mod Variants
pub mod Wire
pub mod Datagrams
pub mod Ends
pub mod Shutdown
pub mod Interrupt
pub mod Turns
pub mod Login
pub mod Session
pub mod Conversation
pub mod Main
