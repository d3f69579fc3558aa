-- ===== src/Pool/Cleaning.antt =====
-- cleanup.go: what a cleanup closes, and what it leaves alone.
pub mod Drop
pub mod Closure
pub mod Chosen
pub mod Limit
pub mod Spares
pub mod Sweep
