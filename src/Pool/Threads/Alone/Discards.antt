-- ===== src/Pool/Threads/Alone/Discards.antt =====
-- closeConnection, alone.
use netconnpool.Pool.Threads.Defs.{Shared, After, discards, discard_marks, with_pool, after}
use netconnpool.Prelude.{ℕ}
use netconnpool.Pool.State.{World}
use netconnpool.Pool.Discard.{close_connection}
use netconnpool.Pool.Threads.Act.{act}
use netconnpool.Pool.Threads.Alone.{Runs, done, step}

pub discards-Runs :
    (w : World) (s : Shared) (id : ℕ) (a : After)
    → Runs w
        (s, discards (discard_marks id) a)
        (with_pool s (close_connection w s.pool id).0, after a (close_connection w s.pool id).1)
unfolding act close_connection
discards-Runs w s id a = step (step (step (step (done _))))
