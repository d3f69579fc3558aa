-- ===== src/Errors.antt =====
-- errors.go: the errors that the package returns. `outside` is an error of code outside the package
-- (a callback of the configuration), and `context` is the error of a context that is done.
use netconnpool.Prelude.{ℕ}

pub data Error : Type 0 where
  pool_closed : Error
  connection_closed : Error
  get_connection_timeout : Error
  max_connections_reached : Error
  invalid_connection : Error
  connection_unhealthy : Error
  invalid_config : Error
  connection_leaked : Error
  pool_exhausted : Error
  unsupported_ip_version : Error
  no_connection_for_ip_version : Error
  unsupported_protocol : Error
  no_connection_for_protocol : Error
  context : Error
  outside : ℕ → Error

pub data Result {ℓ} (A : Type ℓ) : Type ℓ where
  ok : A → Result A
  err : Error → Result A
