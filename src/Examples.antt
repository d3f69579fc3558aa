-- ===== src/Examples.antt =====
-- Concrete pools, callbacks and configurations, on which the tests run the model and the theorems
-- are applied.
pub mod Pools
pub mod Lent
mod Cores
mod Requests
mod Sharing
mod Closing
mod Configs
mod Managed
mod Buffers
mod Parsed
mod Cycled
mod Lendings
mod Started
mod Raced
mod Starved
mod Drifted
mod Checked
mod Threads
mod Accepted
