-- ===== src/Net.antt =====
-- What the package uses of Go's `net`.
pub mod Addr
