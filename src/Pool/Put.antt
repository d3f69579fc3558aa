-- ===== src/Pool/Put.antt =====
-- pool.go: `Put`.
use netconnpool.Prelude.{
  ℕ, ◌*◌, Option, none, some, Bool, not, ◌&&◌, List, [], ◌∷◌, ◌++◌, length, ltb, if◌then◌else◌,
}
use netconnpool.Prelude.Word.{minus_one}
use netconnpool.Prelude.Int.{ℤ, pos, pos_part, leb_ℤ}
use netconnpool.Errors.{Error}
use netconnpool.Protocol.{Protocol, protocol_eq}
use netconnpool.Config.{millisecond}
use netconnpool.Connection.{Connection, mark_idle}
use netconnpool.Stats.{
  increment_current_active_connections, increment_current_idle_connections,
  increment_current_ipv4_idle_connections, increment_current_ipv6_idle_connections,
  increment_current_tcp_idle_connections, increment_current_udp_idle_connections,
}
use netconnpool.Pool.State.{
  Pool, World, returns, clears, with_stats, on_object, by_version, by_protocol, is_connection_valid,
}
use netconnpool.Pool.Discard.{close_connection}
use netconnpool.Pool.Notify.{notify_wait_queue}

-- The hook OnReturn.
abbrev pub call_on_return : ℕ → Pool → Pool
call_on_return id p =
    if p.config.on_return then record p { effects = returns (p.object id).conn ∷ p.effects } else p

abbrev pub clear_timeout : ℤ → ℤ
clear_timeout t = if leb_ℤ t (pos 0) then pos (100 * millisecond) else t

-- The call of `ClearUDPReadBufferNonBlocking` for a UDP connection.
abbrev pub clear_udp : ℕ → Pool → Pool
clear_udp id p =
    if p.config.clear_udp_buffer_on_return && protocol_eq (p.object id).protocol Protocol.udp
    then record p {
      effects =
          clears (p.object id).conn (clear_timeout p.config.udp_buffer_clear_timeout)
            p.config.max_buffer_clear_packets
          ∷ p.effects;
    }
    else p

-- `cap(idleChan)`: `NewPool` makes both channels for `MaxIdleConnections`.
abbrev pub idle_capacity : Pool → ℕ
idle_capacity p = pos_part p.config.max_idle_connections

abbrev pub is_tcp_connection : Pool → ℕ → Bool
is_tcp_connection p id = protocol_eq (p.object id).protocol Protocol.tcp

-- The idle channel of the connection's protocol, and a send on it.
abbrev pub idle_chan : ℕ → Pool → List ℕ
idle_chan id p = if is_tcp_connection p id then p.idle_tcp else p.idle_udp

abbrev pub send_idle : ℕ → Pool → Pool
send_idle id p =
    if is_tcp_connection p id
    then record p { idle_tcp = p.idle_tcp ++ id ∷ [] }
    else record p { idle_udp = p.idle_udp ++ id ∷ [] }

abbrev pub count_idle : (delta : ℕ) → Connection → Pool → Pool
count_idle delta c p =
    with_stats
      (by_protocol (increment_current_tcp_idle_connections delta)
        (increment_current_udp_idle_connections delta) c.protocol)
      (with_stats
        (by_version (increment_current_ipv4_idle_connections delta)
          (increment_current_ipv6_idle_connections delta) c.ip_version)
        (with_stats (increment_current_idle_connections delta) p))

-- What `Put` does before its `select`.
unfoldable pub hand_back : ℕ → Pool → Pool
hand_back id p =
    let p1 = clear_udp id (call_on_return id p) in
    with_stats (increment_current_active_connections minus_one) (on_object id (mark_idle p1.now) p1)

-- The `select` of `Put`.
unfoldable pub to_idle : World → ℕ → Pool → Pool × Option Error
to_idle w id p =
    if ltb (length (idle_chan id p)) (idle_capacity p)
    then (notify_wait_queue id (count_idle 1 (p.object id) (send_idle id p)), none)
    else close_connection w p id

unfoldable pub put : World → Pool → Option ℕ → Pool × Option Error
put w p none = (p, some Error.invalid_connection)
put w p (some id) =
    if p.closed
    then close_connection w p id
    else if not (is_connection_valid p id)
    then close_connection w p id
    else to_idle w id (hand_back id p)
