-- ===== src/Pool/Discard.antt =====
-- pool.go: `closeConnection`, with `Connection.Close` of connection.go.
use netconnpool.Prelude.{ℕ, Option, none, some, false, ◌∷◌, if◌then◌else◌, member, erase}
use netconnpool.Prelude.Word.{minus_one}
use netconnpool.Errors.{Error}
use netconnpool.Net.Addr.{NetConn}
use netconnpool.Connection.{Connection, update_health}
use netconnpool.Stats.{
  increment_total_connections_closed, increment_current_ipv4_connections,
  increment_current_ipv6_connections, increment_current_tcp_connections,
  increment_current_udp_connections,
}
use netconnpool.Pool.State.{
  Pool, World, closes, with_stats, on_object, asks, by_version, by_protocol,
}

-- The rest of `Connection.Close`, by the socket that it finds. A pool's connection always has its
-- `onClose`, the function of `createCloseFunc`.
unfoldable pub close_socket : World → Pool → ℕ → Option NetConn → Pool × Option Error
close_socket w p id none = (p, none)
close_socket w p id (some socket) = (
  on_object id (λ c. record c { conn = none })
      (asks w (record p { effects = closes socket ∷ p.effects })),
  w.close p.asked,
)

unfoldable pub connection_close : World → Pool → ℕ → Pool × Option Error
unfolding close_socket
connection_close w p id = close_socket w p id (p.object id).conn

-- The statistics of `closeConnection`, when the map held the connection.
abbrev pub count_closed : Connection → Pool → Pool
count_closed c p =
    with_stats
      (by_protocol (increment_current_tcp_connections minus_one)
        (increment_current_udp_connections minus_one) c.protocol)
      (with_stats
        (by_version (increment_current_ipv4_connections minus_one)
          (increment_current_ipv6_connections minus_one) c.ip_version)
        (with_stats increment_total_connections_closed p))

-- `closeConnection`, of a connection that is not nil.
unfoldable pub close_connection : World → Pool → ℕ → Pool × Option Error
unfolding connection_close
close_connection w p id =
    let p1 = on_object id (update_health false p.now) p in
    let exists = member id p1.connections in
    let p2 = if exists then record p1 { connections = erase id p1.connections } else p1 in
    let (p3, e) = connection_close w p2 id in
    (if exists then count_closed (p3.object id) p3 else p3, e)
