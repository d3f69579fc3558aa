-- ===== src/Pool/Threads/Swept.antt =====
-- cleanup.go, pool.go: a round of `performCleanup` that overlaps a `GetWithTimeout`.
use netconnpool.Prelude.{
  ℕ, ◌≡◌, ◌≢◌, refl, ap, ap₂, sym, subst, ◌∙◌, Option, none, some, Bool, true, false, ◌&&◌, List,
  ◌∷◌, ==_false, ==_refl, arith,
}
use netconnpool.Stats.{increment_total_get_requests}
use netconnpool.Pool.State.{Pool, World, has_socket, with_stats, is_connection_valid}
use netconnpool.Pool.Borrow.{got, take_any, take_both, lend_idle}
use netconnpool.Pool.Get.{finish_get}
use netconnpool.Pool.Discard.{close_connection}
use netconnpool.Pool.Cleanup.{should_close, remove_from_idle_pool}
use netconnpool.Pool.Core.Closings.{conn-close_connection}
use netconnpool.Pool.Threads.Act.{act}
use netconnpool.Pool.Threads.System.{System, Moves, at_rest, calls_get, calls_sweep}
use netconnpool.Pool.Threads.Alone.{Runs, done, step, then-Runs, else-Runs}
use netconnpool.Pool.Threads.Alone.Discards.{discards-Runs}
use netconnpool.Pool.Threads.Duo.{Duo, Turns, stop, left-Turns, right-Turns, Turns-Moves}
use netconnpool.Pool.Threads.Overlaps.{both_start}
use netconnpool.Pool.Threads.Defs.{
  Shared, gets, discards, sweeps, gave, returned, get_starts, get_reuses, discard_marks,
  sweep_tests, returns_nothing, with_pool, taken,
}
use netconnpool.Prelude.{[]}
use netconnpool.Pool.Threads.System.{entry}
use netconnpool.Pool.Threads.Duo.{Stands}

-- The pool while a `Get` looks at the first idle TCP connection.
abbrev looked : List ℕ → Pool → Pool
looked rest p = record (with_stats increment_total_get_requests p) { idle_tcp = rest }

takes_first :
    (w : World) (id : ℕ) (rest : List ℕ) (p : Pool)
    → p.idle_tcp ≡ id ∷ rest
    → p.idle_udp ≡ []
    → take_any w p ≡ some (id, record p { idle_tcp = rest })
unfolding take_any take_both
takes_first w id rest p e f = ap₂ (λ (xs ys : List ℕ). take_both w xs ys p) e f

lend_idle-in_use : (id : ℕ) (p : Pool) → ((lend_idle id p).object id).in_use ≡ true
unfolding lend_idle
lend_idle-in_use id p = ground arith

close_connection-in_use :
    (w : World) (id : ℕ) (p : Pool)
    → ((close_connection w p id).0.object id).in_use ≡ (p.object id).in_use
unfolding close_connection
close_connection-in_use w id p = ground arith

no_socket_left :
    (w : World) (id : ℕ) (p : Pool)
    → has_socket ((close_connection w p id).0.object id).conn ≡ false
no_socket_left w id p = rw (conn-close_connection w p id id, ==_refl id) refl

module _ (w : World) (s : Shared) (id : ℕ) where
  get_looks :
      (rest : List ℕ)
      → s.tcp_shut ≡ false
      → s.pool.closed ≡ false
      → s.pool.idle_tcp ≡ id ∷ rest
      → s.pool.idle_udp ≡ []
      → is_connection_valid s.pool id ≡ true
      → Runs w
          (s, gets 0 get_starts)
          (with_pool s (looked rest s.pool), gets s.pool.now (get_reuses id))
  unfolding act is_connection_valid
  get_looks rest h o e f v = step (
      else-Runs _ o (
        step (
          else-Runs _ o (
            step (
              else-Runs _ (ap (λ (b : Bool). b && w.prefers_tcp s.pool.asked) h) (
                subst
                  (λ (r : Option (ℕ × Pool)).
                    Runs w
                      (taken s.pool.now
                        (with_pool s (with_stats increment_total_get_requests s.pool)) r)
                      (with_pool s (looked rest s.pool), gets s.pool.now (get_reuses id)))
                  (sym (takes_first w id rest (with_stats increment_total_get_requests s.pool) e f))
                  (step (then-Runs _ v (done _)))))))))

  marked_in_use : ((remove_from_idle_pool id s.pool).object id).in_use ≡ (s.pool.object id).in_use
  marked_in_use = rw (==_refl id) refl

  sweep_judged :
      (s.pool.object id).in_use ≡ false
      → should_close s.pool.config s.pool.now (s.pool.object id) ≡ true
      → Runs w
          (s, sweeps (sweep_tests id))
          (
            with_pool s (remove_from_idle_pool id s.pool),
            discards (discard_marks id) returns_nothing,
          )
  unfolding act
  sweep_judged i c = step (
      else-Runs _ i (step (then-Runs _ c (step (step (else-Runs _ (marked_in_use ∙ i) (done _)))))))

  get_lends_it :
      (started : ℕ)
      → Runs w
          (s, gets started (get_reuses id))
          (with_pool s (finish_get started (lend_idle id s.pool, got id)).0, gave (got id))
  unfolding act
  get_lends_it started = step (step (done _))

-- What is left of the two calls: the caller's connection, marked as in use, without a socket.
record LentClosed (id : ℕ) (e : Duo) : Type 0 where
  lent : e.left ≡ gave (got id)
  swept_on : e.right ≡ returned none
  used : (e.common.pool.object id).in_use ≡ true
  gone : has_socket (e.common.pool.object id).conn ≡ false

sweep_overlaps :
    (w : World) (s : Shared) (id : ℕ) (rest : List ℕ)
    → s.tcp_shut ≡ false
    → s.pool.closed ≡ false
    → s.pool.idle_tcp ≡ id ∷ rest
    → s.pool.idle_udp ≡ []
    → is_connection_valid s.pool id ≡ true
    → (s.pool.object id).in_use ≡ false
    → should_close s.pool.config s.pool.now (s.pool.object id) ≡ true
    → (e : Duo) × Turns w
        (record { common = s; left = gets 0 get_starts; right = sweeps (sweep_tests id) })
        e
      × LentClosed id e
sweep_overlaps w s id rest h o e f v i c =
    let p = remove_from_idle_pool id (looked rest s.pool) in
    let q = (finish_get s.pool.now (lend_idle id p, got id)).0 in
    let r = (close_connection w q id).0 in
    (
      record { common = with_pool s r; left = gave (got id); right = returned none },
      left-Turns (get_looks w s id rest h o e f v) (
          right-Turns (sweep_judged w (with_pool s (looked rest s.pool)) id i c) (
            left-Turns (get_lends_it w (with_pool s p) id s.pool.now)
              (right-Turns (discards-Runs w (with_pool s q) id returns_nothing) (stop _)))),
      record {
        lent = refl;
        swept_on = refl;
        used = close_connection-in_use w id q ∙ lend_idle-in_use id p;
        gone = no_socket_left w id q;
      },
    )

-- For the first idle TCP connection of an open pool with no idle UDP connection, that is in good order
-- and that the cleanup would close, since it is idle for too long say: a `GetWithTimeout` and a round
-- of `performCleanup` for it, by two goroutines, can take turns, with no access but those of these
-- two calls, so that both return, `Get` with this connection, which is marked as in use and has its
-- socket closed.
pub get_swept :
    (w : World) (y : System) (i k id : ℕ) (rest : List ℕ)
    → i ≢ k
    → at_rest (y.thread i) ≡ true
    → at_rest (y.thread k) ≡ true
    → y.shared.tcp_shut ≡ false
    → y.shared.pool.closed ≡ false
    → y.shared.pool.idle_tcp ≡ id ∷ rest
    → y.shared.pool.idle_udp ≡ []
    → is_connection_valid y.shared.pool id ≡ true
    → (y.shared.pool.object id).in_use ≡ false
    → should_close y.shared.pool.config y.shared.pool.now (y.shared.pool.object id) ≡ true
    → (d : Duo) × (z : System) × Turns w
        (record { common = y.shared; left = entry calls_get; right = entry (calls_sweep id) })
        d
      × Moves w y z
      × Stands z i k d
      × (d.left ≡ gave (got id))
      × (d.right ≡ returned none)
      × ((d.common.pool.object id).in_use ≡ true)
      × (has_socket (d.common.pool.object id).conn ≡ false)
get_swept w y i k id rest n l r h o e f v u c =
    let (x, m, b) = both_start w y i k calls_get (calls_sweep id) n l r in
    let (d, t, g) = sweep_overlaps w y.shared id rest h o e f v u c in
    let (z, m', b') = Turns-Moves i k (==_false i k n) w x t b m in
    (d, z, t, m', b', g.lent, g.swept_on, g.used, g.gone)
