-- ===== src/Program/Login.antt =====
-- src/main.cpp, runMain: how a user comes into the conversation.
pub mod Lines
pub mod Answers
pub mod Asks
pub mod Opens
pub mod Complete
