-- ===== src/Pool/Threads/Overlaps.antt =====
-- What goes wrong when `Close` overlaps `Put`, or a creation, and a round of the cleanup `Get`.
use netconnpool.Prelude.{
  ℕ, ◌≡◌, ◌≢◌, refl, ap, ◌∙◌, Bool, true, false, not, ◌==◌, ==_false, ==_refl, arith, if_cases,
}
use netconnpool.Pool.State.{Pool, World, is_connection_valid}
use netconnpool.Pool.Put.{hand_back, is_tcp_connection}
use netconnpool.Pool.Shutdown.{close}
use netconnpool.Pool.Core.Kept.{hand_back-Keeps}
use netconnpool.Pool.Threads.Act.{act}
use netconnpool.Pool.Threads.System.{
  System, Moves, here, next, starts, moved, at_rest, entry, calls_put, calls_close,
}
use netconnpool.Pool.Threads.Alone.{Runs, done, step, then-Runs, else-Runs}
use netconnpool.Pool.Threads.Alone.Closes.{close-Runs, all_shut}
use netconnpool.Pool.Threads.Duo.{Duo, Turns, stop, Stands, left-Turns, right-Turns, Turns-Moves}
use netconnpool.Pool.Threads.Defs.{
  Shared, puts, shuts, returned, panicked, put_tests, put_sends, shut_starts, with_pool,
}
use netconnpool.Pool.Threads.System.{Call}

swapped : (i k : ℕ) → (i == k) ≡ false → (k == i) ≡ false
swapped i k e = ground arith

-- Two calls begin.
pub both_start :
    (w : World) (y : System) (i k : ℕ) (c d : Call)
    → i ≢ k
    → at_rest (y.thread i) ≡ true
    → at_rest (y.thread k) ≡ true
    → (z : System) × Moves w y z
      × Stands z i k (record { common = y.shared; left = entry c; right = entry d })
both_start w y i k c d n h l =
    let z = moved y i (y.shared, entry c) in
    let apart = ==_false i k n in
    (
      moved z k (y.shared, entry d),
      next (next (here y) (starts y i c h)) (starts z k d (rw apart l)),
      record {
        shared_is = refl;
        left_is = rw (swapped i k apart, ==_refl i) refl;
        right_is = rw (==_refl k) refl;
      },
    )

-- `Put` on its way to the `select`.
pub put_passes :
    (w : World) (s : Shared) (id : ℕ)
    → s.pool.closed ≡ false
    → is_connection_valid s.pool id ≡ true
    → Runs w (s, puts (put_tests id)) (with_pool s (hand_back id s.pool), puts (put_sends id))
unfolding act
put_passes w s id o v = step (else-Runs _ o (step (else-Runs _ (ap not v) (step (done _)))))

-- `Put` at its `select`, once every channel is closed.
sends_too_late :
    (w : World) (s : Shared) (id : ℕ) (p : Pool)
    → Runs w (all_shut w s p, puts (put_sends id)) (all_shut w s p, panicked)
unfolding act
sends_too_late w s id p = step (
    then-Runs _ (if_cases (λ (b : Bool). b ≡ true) (is_tcp_connection p id) (λ h. refl) (λ h. refl))
      (done _))

put_then_close :
    (w : World) (s : Shared) (id : ℕ)
    → s.once ≡ false
    → s.pool.closed ≡ false
    → is_connection_valid s.pool id ≡ true
    → (e : Duo) × Turns w
        (record { common = s; left = puts (put_tests id); right = shuts shut_starts })
        e
      × (e.left ≡ panicked)
put_then_close w s id f o v =
    let p = hand_back id s.pool in
    (
      record {
        common = all_shut w s (close w p).0;
        left = panicked;
        right = returned (close w p).1;
      },
      left-Turns (put_passes w s id o v) (
          right-Turns (close-Runs w (with_pool s p) f ((hand_back-Keeps id s.pool).same_closed ∙ o))
            (left-Turns (sends_too_late w s id (close w p).0) (stop _))),
      refl,
    )

-- In a pool that is open, and that no `Close` has begun to close: a `Put` of a connection in good
-- order and a `Close`, called by two goroutines, can follow each other so that `Put` panics.
pub put_panics :
    (w : World) (y : System) (i k id : ℕ)
    → i ≢ k
    → at_rest (y.thread i) ≡ true
    → at_rest (y.thread k) ≡ true
    → y.shared.once ≡ false
    → y.shared.pool.closed ≡ false
    → is_connection_valid y.shared.pool id ≡ true
    → (z : System) × Moves w y z × (z.thread i ≡ panicked)
put_panics w y i k id n h l f o v =
    let (x, m, b) = both_start w y i k (calls_put id) calls_close n h l in
    let (e, t, q) = put_then_close w y.shared id f o v in
    let (z, m', b') = Turns-Moves i k (==_false i k n) w x t b m in (z, m', b'.left_is ∙ q)
