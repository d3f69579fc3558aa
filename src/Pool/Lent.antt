-- ===== src/Pool/Lent.antt =====
-- What the `Get` methods return: a connection in use, with an open socket, of the kind asked for;
-- and that their loops end.
pub mod Lends
pub mod Timeout
pub mod Kinds
