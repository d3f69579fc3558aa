-- ===== src/Examples/Raced.antt =====
-- Creations for a pool of at most two connections.
use netconnpool.Prelude.{◌≡◌, ◌≤◌, ◌+◌, refl, length, arith}
use netconnpool.Prelude.Int.{pos_part}
use netconnpool.Pool.State.{Pool, new_pool}
use netconnpool.Pool.Racing.{Racing, Races, begins, start, next}
use netconnpool.Pool.Racing.Within.{Races_within}
use netconnpool.Pool.Racing.Overshot.{Races_overshoot}
use netconnpool.Examples.Pools.{tcp_world, tcp_socket, small_config}

abbrev first_dial : Racing
first_dial = record { pool = new_pool small_config 0; dialing = 1 }

first_dial-Races : Races tcp_world small_config first_dial
first_dial-Races = next (start 0) (begins _ (omega arith) refl)

Races_within_example :
    length first_dial.pool.connections + first_dial.dialing
    ≤ pos_part small_config.max_connections + 4
Races_within_example = Races_within first_dial-Races refl

Races_overshoot_example :
    (p : Pool) × Races tcp_world small_config (record { pool = p; dialing = 0 })
    × (length p.connections ≡ pos_part small_config.max_connections + 4)
Races_overshoot_example =
    Races_overshoot tcp_world small_config tcp_socket (λ n. refl) refl refl refl refl
