-- ===== src/Pool/Threads/Sockets/Puts.antt =====
-- The accesses of `Put` and of a round of `performCleanup`.
use netconnpool.Prelude.{[]}
use netconnpool.Prelude.{ℕ, refl, Bool, true, false, not, List, ◌∷◌, length, ltb}
use netconnpool.Pool.State.{World, Queue, is_connection_valid}
use netconnpool.Pool.Core.Unchanged.{elsewhere-Keeps}
use netconnpool.Pool.Core.Kept.{hand_back-Keeps}
use netconnpool.Pool.Notify.{can_send}
use netconnpool.Pool.Cleanup.{should_close}
use netconnpool.Pool.Threads.Act.{put_act, sweep_act}
use netconnpool.Pool.Threads.Owned.{Handles, Keeps-SameMap, calm, if-Handles}
use netconnpool.Pool.Threads.Defs.{
  Shared, Putting, Sweeping, puts, sweeps, put_tests, put_checks, put_returns, put_sends,
  put_counts, put_notifies, put_offers, sweep_tests, sweep_judges, sweep_marks, sweep_retests,
  idle_shut, notified, offered,
}
use netconnpool.Pool.Put.{idle_chan}
use netconnpool.Pool.Put.{idle_capacity}
use netconnpool.Pool.Threads.Sockets.Same.{counts_idle-SameMap, marks-SameMap, sends-SameMap, still}

module _ {s : Shared} where
  notified-Handles :
      (id : ℕ) (q : Queue) (qs : List Queue) (chans : List ℕ)
      → Handles s (puts (put_notifies id (q ∷ qs))) (notified s id q qs chans)
  notified-Handles id q qs [] = if-Handles (s.queue_shut q) (still refl refl) (still refl refl)
  notified-Handles id q qs (ch ∷ rest) = calm (Keeps-SameMap (elsewhere-Keeps s.pool)) refl refl

  offered-Handles :
      (id ch : ℕ) (qs : List Queue) (b : Bool)
      → Handles s (puts (put_offers id ch qs)) (offered s id ch qs b)
  offered-Handles id ch qs true = calm (Keeps-SameMap (elsewhere-Keeps s.pool)) refl refl
  offered-Handles id ch qs false = still refl refl

  pub put_act-Handles : (w : World) (t : Putting) → Handles s (puts t) (put_act w s t)
  put_act-Handles w (put_tests id) = if-Handles s.pool.closed (still refl refl) (still refl refl)
  put_act-Handles w (put_checks id) =
      if-Handles (not (is_connection_valid s.pool id)) (still refl refl) (still refl refl)
  put_act-Handles w (put_returns id) = calm (Keeps-SameMap (hand_back-Keeps id s.pool)) refl refl
  put_act-Handles w (put_sends id) = if-Handles (idle_shut id s) (still refl refl) (
      if-Handles (ltb (length (idle_chan id s.pool)) (idle_capacity s.pool))
        (calm (sends-SameMap id s.pool) refl refl) (still refl refl))
  put_act-Handles w (put_counts id) = calm (counts_idle-SameMap id s.pool) refl refl
  put_act-Handles w (put_notifies id []) = still refl refl
  put_act-Handles w (put_notifies id (q ∷ qs)) = notified-Handles id q qs (s.pool.queue q)
  put_act-Handles w (put_offers id ch qs) = offered-Handles id ch qs (can_send (s.pool.chan ch))

  pub sweep_act-Handles : (w : World) (t : Sweeping) → Handles s (sweeps t) (sweep_act w s t)
  sweep_act-Handles w (sweep_tests id) =
      if-Handles (s.pool.object id).in_use (still refl refl) (still refl refl)
  sweep_act-Handles w (sweep_judges id) =
      if-Handles (should_close s.pool.config s.pool.now (s.pool.object id)) (still refl refl)
        (still refl refl)
  sweep_act-Handles w (sweep_marks id) = calm (marks-SameMap id s.pool) refl refl
  sweep_act-Handles w (sweep_retests id) =
      if-Handles (s.pool.object id).in_use (still refl refl) (still refl refl)
