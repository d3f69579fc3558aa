-- ===== src/Pool/Waiters.antt =====
-- The waiters: their channels among the five queues.
pub mod Weights
pub mod Offers
pub mod Calls
pub mod Steps
pub mod Starved
