-- ===== src/Examples/Drifted.antt =====
-- The warm-up of a pool with statistics.
use netconnpool.Prelude.{ℕ, ◌+◌, ◌%◌, ◌^◌, ◌≡◌, false, some, refl}
use netconnpool.Stats.{Stats}
use netconnpool.Pool.WarmUp.{warm_up}
use netconnpool.Pool.Lending.{lent}
use netconnpool.Pool.Drift.{warm_up_drifts}
use netconnpool.Examples.Pools.{tcp_world, small_config, small_pool}
use netconnpool.Prelude.{arith}

warm_up_drifts_example :
    (s : Stats) × ((warm_up tcp_world small_pool).stats ≡ some s)
    × ((s.current_active_connections + (warm_up tcp_world small_pool).next_id) % 2 ^ 64 ≡ 0)
    × ((id : ℕ) → lent (warm_up tcp_world small_pool) id ≡ false)
warm_up_drifts_example =
    warm_up_drifts tcp_world small_config 5_000 refl (λ n e. cc) (λ e n. omega arith)
