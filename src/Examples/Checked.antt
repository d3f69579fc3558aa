-- ===== src/Examples/Checked.antt =====
-- A TCP connection over IPv4 that is checked while it is silent, and one that is put and lent again.
use netconnpool.Prelude.{◌≡◌, true, false, some, refl, arith}
use netconnpool.Protocol.{Protocol}
use netconnpool.IpVersion.{ipv4}
use netconnpool.Connection.{new_connection}
use netconnpool.Stats.{new_stats}
use netconnpool.Pool.State.{Pool, is_connection_valid}
use netconnpool.Pool.Health.{times_out, perform_check, first_ready, check_connection}
use netconnpool.Pool.Put.{count_idle, send_idle}
use netconnpool.Pool.Borrow.{lend_idle, lend_idle_of_protocol}
use netconnpool.Prelude.{[], ◌∷◌}
use netconnpool.Pool.Borrow.{again}
use netconnpool.Pool.Get.{timeout_turn}
use netconnpool.Pool.Stale.{timeout_turn_stale}
use netconnpool.Examples.Pools.{tcp_world}
use netconnpool.Pool.Silent.{check_connection_silent}
use netconnpool.Pool.IdleCounts.{idle_tally, idle_tallies, drifted, IsWords, idle_counts_drift}
use netconnpool.Examples.Pools.{small_pool, tcp_socket}
use netconnpool.Prelude.{none, erase}
use netconnpool.Pool.State.{has_socket}

abbrev tcp_pool : Pool
tcp_pool = record small_pool {
  object = λ id. new_connection (some (tcp_socket id)) Protocol.tcp ipv4 5_000;
}

check_connection_silent_example :
    (perform_check none false times_out ≡ true)
    × (((check_connection 1
            (first_ready 8_000 8_001 true (perform_check none false times_out))
            tcp_pool).object
          1).is_healthy
        ≡ false)
    × (is_connection_valid
          (check_connection 1
            (first_ready 8_000 8_001 true (perform_check none false times_out))
            tcp_pool)
          1
        ≡ false)
check_connection_silent_example =
    check_connection_silent tcp_pool 1 5_000 5_001 8_001 3_000 true refl refl (omega arith)
      (omega arith)

new_stats-IsWords : IsWords (idle_tally (new_stats 5_000))
new_stats-IsWords = record {
  idle_word = omega arith;
  ipv4_word = omega arith;
  ipv6_word = omega arith;
  tcp_word = omega arith;
  udp_word = omega arith;
}

idle_counts_drift_example :
    (idle_tallies (lend_idle 1 (count_idle 1 (tcp_pool.object 1) (send_idle 1 tcp_pool))).stats
      ≡ some (idle_tally (new_stats 5_000)))
    × (idle_tallies
          (lend_idle_of_protocol 1 (count_idle 1 (tcp_pool.object 1) (send_idle 1 tcp_pool))).stats
        ≡ some (drifted ipv4 (idle_tally (new_stats 5_000))))
idle_counts_drift_example = idle_counts_drift 1 tcp_pool (new_stats 5_000) refl new_stats-IsWords

-- The first connection is idle and was found unhealthy.
abbrev stale_pool : Pool
stale_pool = record small_pool {
  object = λ id. record (new_connection (some (tcp_socket id)) Protocol.tcp ipv4 5_000) {
    is_healthy = false;
  };
  idle_tcp = 1 ∷ [];
}

stale_invalid : is_connection_valid stale_pool 1 ≡ false
unfolding is_connection_valid
stale_invalid = refl

timeout_turn_stale_example :
    (q : Pool) × (timeout_turn tcp_world stale_pool ≡ again q)
    × (q.idle_tcp ≡ [])
    × (q.idle_udp ≡ [])
    × (has_socket (q.object 1).conn ≡ false)
    × (q.connections ≡ erase 1 stale_pool.connections)
    × (idle_tallies q.stats ≡ idle_tallies stale_pool.stats)
timeout_turn_stale_example =
    timeout_turn_stale tcp_world stale_pool 1 [] refl refl refl stale_invalid
