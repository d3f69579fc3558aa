-- ===== src/Pool.antt =====
-- pool.go: the pool, by its state, its methods and what is proved of them.
pub mod State
pub mod Discard
pub mod Notify
pub mod Put
pub mod Create
pub mod Borrow
pub mod Get
pub mod GetProtocol
pub mod GetVersion
pub mod Wait
pub mod Shutdown
pub mod WarmUp
pub mod Leak
pub mod Health
pub mod Cleanup
pub mod Run
pub mod Invariance
pub mod Core
pub mod Lent
pub mod Startup
pub mod Lending
pub mod Waiters
pub mod Stays
pub mod Uncrashed
pub mod Started
pub mod LeakCounts
pub mod Cleaning
pub mod Sharing
pub mod Closing
pub mod Racing
pub mod Refused
pub mod Active
pub mod Drift
pub mod Order
pub mod Silent
pub mod Stale
pub mod IdleCounts
pub mod Shortcuts
pub mod Threads
