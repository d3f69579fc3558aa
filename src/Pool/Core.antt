-- ===== src/Pool/Core.antt =====
-- The invariant of the map of connections, and that the methods of the pool keep it.
mod Defs
pub mod Unchanged
pub mod Kept
pub mod Closings
pub mod Discarded
pub mod Registered
pub mod Created
pub mod Methods
pub mod Waiters
pub mod Closed
pub mod Managers
pub mod Reached
pub use Defs.{
  Tally, tally, tallies, of_protocol, of_version, KindsAgree, TallyAgrees, Agrees, Core, Keeps,
  Keeps-refl, Keeps-trans, Keeps-Core,
}
