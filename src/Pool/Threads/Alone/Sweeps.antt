-- ===== src/Pool/Threads/Alone/Sweeps.antt =====
-- cleanup.go: a round of `performCleanup`, alone.
use netconnpool.Prelude.{ℕ, none}
use netconnpool.Pool.State.{Pool, World}
use netconnpool.Pool.Cleanup.{sweep_one, should_close, remove_from_idle_pool}
use netconnpool.Pool.Threads.Act.{act}
use netconnpool.Pool.Threads.Alone.{Runs, if-Runs, done, step}
use netconnpool.Pool.Threads.Alone.Discards.{discards-Runs}
use netconnpool.Pool.Threads.Defs.{
  Shared, Thread, sweeps, returned, sweep_tests, returns_nothing, with_pool,
}

module _ (w : World) (s : Shared) (id : ℕ) where
  abbrev swept : Pool → Shared × Thread
  swept p = (with_pool s p, returned none)

  pub sweep-Runs :
      Runs w (s, sweeps (sweep_tests id)) (with_pool s (sweep_one w id s.pool), returned none)
  unfolding act sweep_one
  sweep-Runs =
      let q = remove_from_idle_pool id s.pool in
      step (
        if-Runs swept (s.pool.object id).in_use (done _) (
          step (
            if-Runs swept (should_close s.pool.config s.pool.now (s.pool.object id))
              (step (
                step (
                  if-Runs swept (q.object id).in_use (done _)
                    (discards-Runs w (with_pool s q) id returns_nothing))))
              (done _))))
