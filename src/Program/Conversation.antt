-- ===== src/Program/Conversation.antt =====
-- src/main.cpp, runMain: what passes between the user and the server while the conversation is
-- open.
pub mod Hears
pub mod Says
pub mod Talks
pub mod Confirms
pub mod Exchanges
pub mod Unheard
pub mod Lines
