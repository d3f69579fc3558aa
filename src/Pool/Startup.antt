-- ===== src/Pool/Startup.antt =====
-- pool.go: `NewPool`, `startBackgroundTasks`, and `Close` with the `Stop`s of the managers.
use netconnpool.Prelude.{ℕ, Option, none, some, if◌then◌else◌}
use netconnpool.Prelude.Int.{pos_part}
use netconnpool.Errors.{Error}
use netconnpool.Config.{Config, validate}
use netconnpool.Manager.{Manager, new_manager, start_health, start_cleanup, start_leak, stop}
use netconnpool.Pool.State.{Pool, World, new_pool}
use netconnpool.Pool.WarmUp.{warm_up}
use netconnpool.Pool.Shutdown.{close}

-- A pool with its `healthCheckManager`, `cleanupManager` and `leakDetector`.
pub record Running : Type 0 where
  pub pool : Pool
  pub health : Manager
  pub cleanup : Manager
  pub leak : Manager

-- What `NewPool` comes to. It panics where the ticker of a manager does, the making of its channels,
-- or the warm-up.
pub data Made : Type 0 where
  refused : Error → Made
  panicked : Made
  made : Running → Made

-- The three calls in their order: a panic in one is a panic of all.
abbrev pub run_all : Pool → Option Manager → Option Manager → Option Manager → Option Running
run_all p (some h) (some c) (some l) = some (record { pool = p; health = h; cleanup = c; leak = l })
run_all p _ _ _ = none

unfoldable pub start_background_tasks : Pool → Made
start_background_tasks p =
    elim (run_all p
      (if p.config.enable_health_check then start_health p.config new_manager else some new_manager)
      (start_cleanup new_manager) (start_leak p.config new_manager)) [
        | none ↦ panicked
        | some r ↦ made r
      ]

-- What follows the warm-up; a panic in the warm-up ends `NewPool`.
abbrev pub after_warm_up : Pool → Made
after_warm_up p = if p.crashed then panicked else start_background_tasks p

-- `NewPool` after `Validate`, of a configuration that is not nil; the two idle channels are of one
-- size.
unfoldable pub build : World → (now : ℕ) → Config × Option Error → Made
build w now (config, some e) = refused e
build w now (config, none) =
    if w.makes_channel (pos_part config.max_idle_connections)
    then after_warm_up (warm_up w (new_pool config now))
    else panicked

unfoldable pub make_pool : World → Config → (now : ℕ) → Made
make_pool w config now = build w now (validate config)

-- `Close`: between `closeChan` and the connections, the managers stop; `none` is a panic.
unfoldable pub close_running : World → Running → Option (Running × Option Error)
close_running w r =
    if r.pool.closed
    then some (r, none)
    else let (p, e) = close w r.pool in
      elim (run_all p (stop r.health) (stop r.cleanup) (stop r.leak)) [
        | none ↦ none
        | some s ↦ some (s, e)
      ]
