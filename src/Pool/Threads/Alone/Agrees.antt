-- ===== src/Pool/Threads/Alone/Agrees.antt =====
-- The four methods of a thread that runs alone, together.
use netconnpool.Prelude.{ℕ, ◌≡◌, refl, ◌∙◌, none, some, Bool, true, false, ltb, if◌then◌else◌}
use netconnpool.Pool.State.{World}
use netconnpool.Pool.Put.{put}
use netconnpool.Pool.Get.{get_with_timeout}
use netconnpool.Pool.Cleanup.{sweep_one}
use netconnpool.Pool.Shutdown.{close}
use netconnpool.Pool.Racing.{permits}
use netconnpool.Pool.Threads.Alone.{Runs, done, then-Runs}
use netconnpool.Pool.Threads.Alone.Puts.{Unshut, put-Runs}
use netconnpool.Pool.Threads.Alone.Gets.{get-Runs}
use netconnpool.Pool.Threads.Alone.Sweeps.{sweep-Runs}
use netconnpool.Pool.Threads.Alone.Closes.{all_shut, begun-Runs}
use netconnpool.Prelude.{subst, sym}
use netconnpool.Pool.Threads.Act.{act}
use netconnpool.Pool.Threads.System.{entry, calls_get, calls_put, calls_sweep, calls_close}
use netconnpool.Pool.Threads.Defs.{Shared, Thread, shuts, gave, returned, shut_starts, with_pool}

-- `Close`, which waits where another call is in `closeOnce`.
abbrev pub closed_as : World → Shared → Shared × Thread
closed_as w s =
    if s.pool.closed
    then (s, shuts shut_starts)
    else (all_shut w s (close w s.pool).0, returned (close w s.pool).1)

-- From the state after the first access of `Close`.
close_cases :
    (w : World) (s : Shared)
    → s.udp_shut ≡ false
    → s.once ≡ s.pool.closed
    → (b : Bool) → s.pool.closed ≡ b
    → Runs w (act w s (shuts shut_starts)) (
        if b
        then (s, shuts shut_starts)
        else (all_shut w s (close w s.pool).0, returned (close w s.pool).1))
unfolding act
close_cases w s u o true e = then-Runs _ (o ∙ e) (
    subst
      (λ (b : Bool).
        Runs w (s, if b then returned none else shuts shut_starts) (s, shuts shut_starts))
      (sym u) (done _))
close_cases w s u o false e = begun-Runs w s (o ∙ e) e

-- From a state in which no channel of the pool is closed, one of the five permits is free, and the
-- pool is closed exactly if `closeOnce` is taken: a thread that acts alone brings the pool to what
-- `put`, `get_with_timeout`, `sweep_one` and `close` make of it in one piece, and returns what they
-- return; `Close`, after its first access, comes to leave every channel closed, and while another
-- `Close` is under way it comes after that access to be again where it began, with nothing changed.
pub entry-Runs :
    (w : World) (s : Shared) (id : ℕ)
    → Unshut s
    → ltb s.permits permits ≡ true
    → s.once ≡ s.pool.closed
    → Runs w
        (s, entry (calls_put id))
        (with_pool s (put w s.pool (some id)).0, returned (put w s.pool (some id)).1)
      × Runs w
          (s, entry calls_get)
          (with_pool s (get_with_timeout w s.pool).0, gave (get_with_timeout w s.pool).1)
      × Runs w (s, entry (calls_sweep id)) (with_pool s (sweep_one w id s.pool), returned none)
      × Runs w (act w s (entry calls_close)) (closed_as w s)
entry-Runs w s id u f o = (
  put-Runs w s u id,
  get-Runs w s u.tcp_open f,
  sweep-Runs w s id,
  close_cases w s u.udp_open o s.pool.closed refl,
)
