-- ===== src/Pool/Lending.antt =====
-- Who holds a connection: at most one of the idle channels and the callers, as long as nobody waits.
mod Defs
pub mod Steady
pub mod Moves
pub mod Puts
pub mod Returns
pub mod Calls
pub mod Rounds
pub mod Protocols
pub mod Kinds
pub mod Waits
pub mod Others
pub mod Traces
pub use Defs.{
  occurrences, tokens, Once, Lendings, Event, lends, returns, silent, Spec, Runs, start, next, lent,
}
