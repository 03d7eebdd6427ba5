-- ===== src/Listener.antt =====
-- src/listeners.cpp and src/headers/listeners.h, class Listener: the thread that waits for input.
pub mod State
pub mod Handlers
pub mod Loop
pub mod Variants
pub mod Epoll
pub mod Registered
pub mod Grows
pub mod Watches
pub mod Watching
pub mod Ending
pub mod Hang
pub mod Confirm
pub mod Lines
pub mod Retry
pub mod Dedup
pub mod Copies
pub mod Clock
pub mod StopAndWait
pub mod Unconfirmed
pub mod StillAwaits
pub mod Waits
pub mod Fills
pub mod Hears
pub mod Datagram
pub mod Thread
