-- ===== src/Examples/Started.antt =====
-- A pool that `NewPool` starts and `Close` closes, and a configuration on which it panics.
use netconnpool.Prelude.{◌≡◌, ◌↔◌, true, false, some, none, Option, refl, inr, arith, ◌*◌}
use netconnpool.Prelude.{◌⊎◌}
use netconnpool.Errors.{Error}
use netconnpool.Prelude.Int.{pos, is_pos}
use netconnpool.Config.{Config, validate, second}
use netconnpool.Pool.State.{new_pool}
use netconnpool.Pool.WarmUp.{warm_up, warm_mode, warm_loop}
use netconnpool.Pool.Startup.{start_background_tasks}
use netconnpool.Manager.{start}
use netconnpool.Config.Validate.{normal_accepted}
use netconnpool.Config.Acceptable.{IsAcceptable, IsNormal}
use netconnpool.Pool.Core.{Core}
use netconnpool.Manager.{serving}
use netconnpool.Pool.Startup.{Running, panicked, made, make_pool, close_running}
use netconnpool.Pool.Shutdown.{close}
use netconnpool.Pool.Started.{
  NoTicker, TooManyIdle, with_managers, make_pool_panics, make_pool_made, close_running_once,
}
use netconnpool.Examples.Pools.{tcp_world, small_config}
use netconnpool.Pool.Startup.{build}

abbrev tickless_config : Config
tickless_config = record small_config { enable_health_check = true; health_check_interval = pos 0 }

make_pool_panics_example : (make_pool tcp_world tickless_config 5_000 ≡ panicked) ↔ (
    IsAcceptable tickless_config
    × (NoTicker tickless_config ⊎ TooManyIdle tcp_world (validate tickless_config).0))
make_pool_panics_example = make_pool_panics tcp_world tickless_config 5_000 (λ n e. cc)

-- A client without a connection to warm up, which `Validate` leaves as it is.
abbrev cold_config : Config
cold_config = record small_config {
  min_connections = pos 0;
  leak_detection_interval = pos (10 * second);
}

cold_config-IsNormal : IsNormal cold_config
cold_config-IsNormal = record {
  acceptable = record {
    source = refl;
    min_nonneg = omega arith;
    min_within = inr (omega arith);
    idle_positive = omega arith;
    timeout_positive = omega arith;
  };
  acceptor_set = λ m. absurd (cc);
  idle_within = inr (omega arith);
  check_within = inr (omega arith);
  packets_positive = omega arith;
  leak_interval = inr (omega arith);
}

abbrev cold_pool : Running
cold_pool = with_managers (new_pool cold_config 5_000)

cold_made : make_pool tcp_world cold_config 5_000 ≡ made cold_pool
unfolding make_pool build warm_up warm_mode warm_loop start_background_tasks start
cold_made = rw (normal_accepted cold_config cold_config-IsNormal) refl

make_pool_made_example :
    Core cold_pool.pool
    × (cold_pool.pool.config ≡ (validate cold_config).0)
    × IsNormal cold_pool.pool.config
    × (cold_pool.pool.closed ≡ false)
    × (serving cold_pool.health ≡ cold_pool.pool.config.enable_health_check)
    × (serving cold_pool.cleanup ≡ true)
    × (serving cold_pool.leak ≡ is_pos cold_pool.pool.config.connection_leak_timeout)
make_pool_made_example = make_pool_made tcp_world cold_config 5_000 cold_pool cold_made

close_running_once_example :
    (s : Running) × (e : Option Error) × (close_running tcp_world cold_pool ≡ some (s, e))
    × (s.pool ≡ (close tcp_world cold_pool.pool).0)
    × (s.pool.closed ≡ true)
    × (s.health.running ≡ false)
    × (s.health.loops ≡ 0)
    × (s.cleanup.running ≡ false)
    × (s.cleanup.loops ≡ 0)
    × (s.leak.running ≡ false)
    × (s.leak.loops ≡ 0)
    × (close_running tcp_world s ≡ some (s, none))
close_running_once_example =
    close_running_once tcp_world cold_pool cold_pool.pool.config.enable_health_check true
      (is_pos cold_pool.pool.config.connection_leak_timeout) refl refl refl refl
