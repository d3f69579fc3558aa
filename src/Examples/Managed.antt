-- ===== src/Examples/Managed.antt =====
-- Pools on which the leak detector and the cleanup act.
use netconnpool.Prelude.{
  Distinct, ◌==◌, if◌then◌else◌, ◌*◌, ◌≡◌, refl, some, true, false, ◌&&◌, ◌||◌, [], ◌∷◌, count,
  member,
}
use netconnpool.Prelude.Int.{pos}
use netconnpool.Protocol.{Protocol}
use netconnpool.IpVersion.{IpVersion}
use netconnpool.Connection.{Connection, new_connection}
use netconnpool.Pool.State.{Pool}
use netconnpool.Pool.Leak.{leaks, detect_leaks}
use netconnpool.Pool.LeakCounts.{leaked_count, raised, detect_leaks_recounts, detect_leaks_marks}
use netconnpool.Pool.Cleanup.{sweep, perform_cleanup}
use netconnpool.Prelude.{if◌then◌else◌, arith}
use netconnpool.Prelude.Int.{pos_part}
use netconnpool.Stats.{new_stats}
use netconnpool.Pool.Cleanup.{enforce_max_idle_connections}
use netconnpool.Pool.Cleaning.Limit.{free, smaller, free-enforce_max_idle_connections}
use netconnpool.Pool.Cleaning.Spares.{perform_cleanup_spares}
use netconnpool.Pool.Cleaning.Sweep.{sweep_removes}
use netconnpool.Examples.Pools.{tcp_socket, tcp_world, small_config, small_pool}

-- Of age 4_990, and idle.
abbrev aged : Connection
aged = new_connection (some (tcp_socket 7)) Protocol.tcp IpVersion.ipv4 10

-- Connection 8 is lent, the others are idle; connections may live for 100, or be lent for 100.
abbrev aged_pool : Pool
aged_pool = record small_pool {
  config = record small_config { max_lifetime = pos 100; connection_leak_timeout = pos 100 };
  object = λ id. if id == 8 then record aged { in_use = true } else aged;
  next_id = 8;
  connections = 8 ∷ 7 ∷ [];
  idle_tcp = 7 ∷ [];
}

detect_leaks_recounts_example :
    (leaked_count (detect_leaks aged_pool).stats
      ≡ raised (count (leaks aged_pool) aged_pool.connections) (leaked_count aged_pool.stats))
    × (leaked_count (detect_leaks (detect_leaks aged_pool)).stats
        ≡ raised (2 * count (leaks aged_pool) aged_pool.connections) (leaked_count aged_pool.stats))
detect_leaks_recounts_example = detect_leaks_recounts aged_pool

detect_leaks_marks_example :
    ((detect_leaks aged_pool).object 8).leak_detected
    ≡ ((aged_pool.object 8).leak_detected || (member 8 aged_pool.connections && leaks aged_pool 8))
detect_leaks_marks_example = detect_leaks_marks aged_pool 8

perform_cleanup_spares_example :
    ((perform_cleanup tcp_world aged_pool).object 8 ≡ aged_pool.object 8)
    × (member 8 (perform_cleanup tcp_world aged_pool).connections ≡ member 8 aged_pool.connections)
perform_cleanup_spares_example = perform_cleanup_spares tcp_world aged_pool 8 refl

aged_pool-Distinct : Distinct aged_pool.connections
unfolding member
aged_pool-Distinct = (refl, (refl, tt))

sweep_removes_example :
    member 7 (sweep tcp_world aged_pool.connections aged_pool).connections ≡ false
sweep_removes_example = sweep_removes tcp_world aged_pool 7 aged_pool-Distinct refl refl

-- Two idle connections, of which one is to stay.
abbrev crowded_pool : Pool
crowded_pool = record aged_pool {
  object = λ _. aged;
  connections = 8 ∷ 7 ∷ [];
  stats = some (new_stats 5_000);
}

crowded_pool-Distinct : Distinct crowded_pool.connections
unfolding member
crowded_pool-Distinct = (refl, (refl, tt))

free-enforce_max_idle_connections_example :
    free (enforce_max_idle_connections tcp_world crowded_pool)
    ≡ smaller (free crowded_pool) (pos_part crowded_pool.config.max_idle_connections)
free-enforce_max_idle_connections_example =
    free-enforce_max_idle_connections tcp_world crowded_pool (new_stats 5_000) refl
      crowded_pool-Distinct (omega arith)
