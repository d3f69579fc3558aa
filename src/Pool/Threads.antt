-- ===== src/Pool/Threads.antt =====
-- pool.go, cleanup.go: the methods of the pool as threads that interleave.
pub mod Defs
pub mod Act
pub mod System
pub mod Owned
pub mod Sockets
pub mod Placed
pub mod Queues
pub mod Alone
pub mod Duo
pub mod Overlaps
pub mod Swept
pub mod Outlived
pub mod Queued
pub mod Dead
pub mod Spins
pub mod Overtaken
