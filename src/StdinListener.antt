-- ===== src/StdinListener.antt =====
-- src/listeners.cpp, class StdinListener: the thread that reads the keyboard, and the pipe that its
-- lines go through to the listener.
pub mod Rounds
pub mod Delivery
pub mod Stop
