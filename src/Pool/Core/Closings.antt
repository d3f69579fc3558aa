-- ===== src/Pool/Core/Closings.antt =====
-- What `closeConnection` does to each field of the pool.
use netconnpool.Prelude.{ℕ, ◌≡◌, none, ◌==◌, if◌then◌else◌, erase, erase_absent, arith}
use netconnpool.Pool.State.{Pool, World}
use netconnpool.Pool.Discard.{close_connection, connection_close}

-- What `Connection.Close` leaves of the socket.
module _ (w : World) (p : Pool) (id : ℕ) where
  pub connection_close-connections : (connection_close w p id).0.connections ≡ p.connections
  unfolding connection_close
  connection_close-connections = ground arith

  pub connection_close-conn :
      (j : ℕ)
      → ((connection_close w p id).0.object j).conn ≡ (if id == j then none else (p.object j).conn)
  unfolding connection_close
  connection_close-conn j = ground arith

  pub connections-close_connection :
      (close_connection w p id).0.connections ≡ erase id p.connections
  unfolding close_connection
  connections-close_connection = ground (arith, erase_absent id p.connections)

  pub conn-close_connection :
      (j : ℕ)
      → ((close_connection w p id).0.object j).conn ≡ (if id == j then none else (p.object j).conn)
  unfolding close_connection
  conn-close_connection j = ground arith

  pub config-close_connection : (close_connection w p id).0.config ≡ p.config
  unfolding close_connection
  config-close_connection = ground arith

  pub next_id-close_connection : (close_connection w p id).0.next_id ≡ p.next_id
  unfolding close_connection
  next_id-close_connection = ground arith

  pub closed-close_connection : (close_connection w p id).0.closed ≡ p.closed
  unfolding close_connection
  closed-close_connection = ground arith

  pub kinds-close_connection :
      (j : ℕ)
      → (((close_connection w p id).0.object j).protocol ≡ (p.object j).protocol)
        × (((close_connection w p id).0.object j).ip_version ≡ (p.object j).ip_version)
  unfolding close_connection
  kinds-close_connection j = (ground arith, ground arith)

  pub idle-close_connection :
      ((close_connection w p id).0.idle_tcp ≡ p.idle_tcp)
      × ((close_connection w p id).0.idle_udp ≡ p.idle_udp)
  unfolding close_connection
  idle-close_connection = (ground arith, ground arith)

  pub waiters-close_connection :
      ((close_connection w p id).0.queue ≡ p.queue) × ((close_connection w p id).0.chan ≡ p.chan)
  unfolding close_connection
  waiters-close_connection = (ground arith, ground arith)

-- The counters that mirror the map, when a connection of these kinds leaves it.
