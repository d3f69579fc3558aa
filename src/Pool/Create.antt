-- ===== src/Pool/Create.antt =====
-- pool.go: `createConnection`, with `NewConnection` of connection.go. No other creation is under
-- way, so that the semaphore of five is free.
use netconnpool.Prelude.{ℕ, suc, Option, none, some, Bool, true, not, ◌∷◌, member, if◌then◌else◌}
use netconnpool.Errors.{Error, Result, ok, err}
use netconnpool.Mode.{PoolMode, client, server, other}
use netconnpool.Net.Addr.{NetConn}
use netconnpool.Protocol.{detect_protocol}
use netconnpool.IpVersion.{detect_ip_version}
use netconnpool.Config.{Config}
use netconnpool.Connection.{Connection, new_connection}
use netconnpool.Stats.{
  increment_total_connections_created, increment_current_ipv4_connections,
  increment_current_ipv6_connections, increment_current_tcp_connections,
  increment_current_udp_connections,
}
use netconnpool.Pool.State.{
  Pool, World, closes, with_stats, asks, by_version, by_protocol, at_limit, update_at,
}
use netconnpool.Pool.Put.{clear_udp}

abbrev pub count_created : Connection → Pool → Pool
count_created c p =
    with_stats
      (by_protocol (increment_current_tcp_connections 1) (increment_current_udp_connections 1)
        c.protocol)
      (with_stats
        (by_version (increment_current_ipv4_connections 1) (increment_current_ipv6_connections 1)
          c.ip_version)
        (with_stats increment_total_connections_created p))

-- The function that the mode calls for is nil, or the mode is no mode.
abbrev pub lacks_source : PoolMode → Config → Bool
lacks_source client c = not c.dialer
lacks_source server c = not c.listener
lacks_source (other _) c = true

-- `NewConnection`: the object, under the next ID.
abbrev pub allocate : World → Option NetConn → Pool → Pool
allocate w socket p = record p {
  next_id = suc p.next_id;
  object = update_at p.object (suc p.next_id) (
      new_connection socket (detect_protocol socket)
        (detect_ip_version w.split_host w.parse_ip socket) p.now);
}

-- `p.connections[connection.ID] = connection`
abbrev pub insert_connection : ℕ → Pool → Pool
insert_connection id p =
    if member id p.connections then p else record p { connections = id ∷ p.connections }

-- From `NewConnection` on.
unfoldable pub register : World → Option NetConn → Pool → Pool × Result ℕ
register w socket p =
    let p1 = allocate w socket p in
    let id = p1.next_id in
    let p2 = insert_connection id (clear_udp id p1) in (count_created (p2.object id) p2, ok id)

-- `conn.Close()` on what Dialer or Acceptor gave, which panics on a nil one.
abbrev pub close_unapproved : Option NetConn → Pool → Pool
close_unapproved none p = record p { crashed = true }
close_unapproved (some socket) p = record p { effects = closes socket ∷ p.effects }

-- The answer of the hook OnCreated; when it fails the socket is closed.
unfoldable pub approved : World → Option NetConn → Option Error → Pool → Pool × Result ℕ
approved w socket (some e) p = (asks w (close_unapproved socket p), err e)
approved w socket none p = register w socket (asks w p)

unfoldable pub created : World → Option NetConn → Pool → Pool × Result ℕ
created w socket p =
    if p.config.on_created then approved w socket (w.on_created p.asked) p else register w socket p

-- The answer of Dialer or Acceptor, which may be neither a socket nor an error.
unfoldable pub dialed : World → Result (Option NetConn) → Pool → Pool × Result ℕ
dialed w (err e) p = (p, err e)
dialed w (ok socket) p = created w socket p

unfoldable pub create_connection : World → Pool → Pool × Result ℕ
create_connection w p =
    if w.done p.asked
    then (p, err Error.context)
    else if p.closed
    then (p, err Error.pool_closed)
    else if at_limit p
    then (p, err Error.max_connections_reached)
    else if lacks_source p.config.mode p.config
    then (p, err Error.invalid_config)
    else dialed w (w.dial p.asked) (asks w p)
