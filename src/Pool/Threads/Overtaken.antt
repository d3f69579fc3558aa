-- ===== src/Pool/Threads/Overtaken.antt =====
-- pool.go: a `Put` that `Close` overtakes between its `select` and `notifyWaitQueue`.
use netconnpool.Prelude.{
  ℕ, ◌≡◌, ◌≢◌, refl, ap, ◌∙◌, Option, true, false, List, [], ◌∷◌, ◌++◌, length, ltb, ==_false,
  arith,
}
use netconnpool.Errors.{Error}
use netconnpool.Protocol.{Protocol}
use netconnpool.IpVersion.{IpVersion}
use netconnpool.Connection.{Connection}
use netconnpool.Pool.State.{Pool, World, Queue, any, v4, v6, tcp, udp, is_connection_valid}
use netconnpool.Pool.Put.{hand_back, send_idle, count_idle, idle_chan, idle_capacity}
use netconnpool.Pool.Notify.{protocol_queue, version_queue}
use netconnpool.Pool.Shutdown.{close, close_wait_queues, close_wait_queue, close_idle}
use netconnpool.Pool.Core.Kept.{hand_back-Keeps}
use netconnpool.Pool.Sharing.{hand_back_channels, hand_back_kept}
use netconnpool.Pool.Threads.Act.{act}
use netconnpool.Pool.Threads.System.{System, Moves, at_rest, calls_put, calls_close}
use netconnpool.Pool.Threads.Alone.{Runs, done, step, Runs-trans, then-Runs, else-Runs}
use netconnpool.Pool.Threads.Alone.Puts.{Unshut, idle_open}
use netconnpool.Pool.Threads.Alone.Closes.{close-Runs, all_shut}
use netconnpool.Pool.Threads.Duo.{Duo, Turns, stop, Stands, left-Turns, right-Turns, Turns-Moves}
use netconnpool.Pool.Threads.Overlaps.{both_start, put_passes}
use netconnpool.Pool.Threads.Defs.{
  Shared, puts, shuts, returned, put_tests, put_counts, put_notifies, shut_starts, with_pool,
  some_queue, queues_for,
}
use netconnpool.Pool.Threads.Spins.{Spins, Moves-Spins}
use netconnpool.Pool.Threads.System.{entry}

-- `notifyWaitQueue` tries one queue at least.
first_queue : (c : Connection) → (q : Queue) × (qs : List Queue) × (queues_for c ≡ q ∷ qs)
first_queue c = go c.protocol c.ip_version
  where
    go :
        (k : Protocol) (v : IpVersion)
        → (q : Queue) × (qs : List Queue) × (some_queue (protocol_queue k)
              ++ (some_queue (version_queue v) ++ any ∷ [])
            ≡ q ∷ qs)
    go Protocol.tcp v = (tcp, _, refl)
    go Protocol.udp v = (udp, _, refl)
    go Protocol.unknown IpVersion.ipv4 = (v4, _, refl)
    go Protocol.unknown IpVersion.ipv6 = (v6, _, refl)
    go Protocol.unknown IpVersion.unknown = (any, _, refl)

-- `Close` leaves every wait queue empty.
close-queue : (w : World) (p : Pool) (q : Queue) → p.closed ≡ false → (close w p).0.queue q ≡ []
unfolding close close_wait_queues close_wait_queue close_idle
close-queue w p any h = rw h refl
close-queue w p v4 h = rw h refl
close-queue w p v6 h = rw h refl
close-queue w p tcp h = rw h refl
close-queue w p udp h = rw h refl

send_idle-closed : (id : ℕ) (p : Pool) → (send_idle id p).closed ≡ p.closed
send_idle-closed id p = ground arith

room_kept :
    (id : ℕ) (p : Pool)
    → ltb (length (idle_chan id (hand_back id p))) (idle_capacity (hand_back id p))
      ≡ ltb (length (idle_chan id p)) (idle_capacity p)
room_kept id p =
    let c = hand_back_channels p id in let k = hand_back_kept p id in rw (k.0, k.1, c.0, c.1) refl

-- What becomes of `Put` and `Close`.
record Overtaken (id : ℕ) (d : Duo) : Type 0 where
  q : Queue
  qs : List Queue
  ended : (e : Option Error) × (d.right ≡ returned e)
  at_queue : d.left ≡ puts (put_notifies id (q ∷ qs))
  shut : d.common.queue_shut q ≡ true
  empty : d.common.pool.queue q ≡ []

-- `Put` sends the connection to its idle channel, if that has room.
put_sends_it :
    (w : World) (s : Shared) (id : ℕ)
    → Unshut s
    → s.pool.closed ≡ false
    → is_connection_valid s.pool id ≡ true
    → ltb (length (idle_chan id s.pool)) (idle_capacity s.pool) ≡ true
    → Runs w
        (s, puts (put_tests id))
        (with_pool s (send_idle id (hand_back id s.pool)), puts (put_counts id))
unfolding act
put_sends_it w s id u o v r = Runs-trans (put_passes w s id o v) (
    step (
      else-Runs _ (idle_open w s u id (hand_back id s.pool))
        (then-Runs _ (room_kept id s.pool ∙ r) (done _))))

overtakes :
    (w : World) (s : Shared) (id : ℕ)
    → Unshut s
    → s.once ≡ false
    → s.pool.closed ≡ false
    → is_connection_valid s.pool id ≡ true
    → ltb (length (idle_chan id s.pool)) (idle_capacity s.pool) ≡ true
    → (e : Duo) × Turns w
        (record { common = s; left = puts (put_tests id); right = shuts shut_starts })
        e
      × Overtaken id e
unfolding act
overtakes w s id u f o v r =
    let p = send_idle id (hand_back id s.pool) in
    let c =
      send_idle-closed id (hand_back id s.pool) ∙ ((hand_back-Keeps id s.pool).same_closed ∙ o) in
    let a = (close w p).0 in
    let z = count_idle 1 (a.object id) a in
    let (q, qs, e) = first_queue (a.object id) in
    (
      record {
        common = all_shut w s z;
        left = puts (put_notifies id (queues_for (a.object id)));
        right = returned (close w p).1;
      },
      left-Turns (put_sends_it w s id u o v r) (
          right-Turns (close-Runs w (with_pool s p) f c)
            (left-Turns {a = (all_shut w s a, puts (put_counts id))} (step (done _)) (stop _))),
      record {
        q = q;
        qs = qs;
        ended = ((close w p).1, refl);
        at_queue = ap (λ (rs : List Queue). puts (put_notifies id rs)) e;
        shut = refl;
        empty = close-queue w p q c;
      },
    )

Overtaken-Spins :
    {i k id : ℕ} {d : Duo} {z : System} (g : Overtaken id d)
    → Stands z i k d
    → Spins i id g.q g.qs z
Overtaken-Spins g b = record {
  stands = b.left_is ∙ g.at_queue;
  shut = ap (λ (s : Shared). s.queue_shut g.q) b.shared_is ∙ g.shut;
  empty = ap (λ (s : Shared). s.pool.queue g.q) b.shared_is ∙ g.empty;
}

-- A thread that stands before one and the same wait queue in every continuation.
abbrev pub StuckAt : World → System → (i id : ℕ) → Queue → List Queue → Type 0
StuckAt w z i id q qs = (u : System) → Moves w z u → u.thread i ≡ puts (put_notifies id (q ∷ qs))

-- In an open pool, none of whose channels is closed, and that no `Close` has begun to close: a `Put` of
-- a connection in good order, for which its idle channel has room, and a `Close`, called by two
-- goroutines, can take turns so that `Close` returns and `Put` stands before a wait queue that
-- is closed and empty, to notify it, whatever the goroutines do next.
pub put_spins :
    (w : World) (y : System) (i k id : ℕ)
    → i ≢ k
    → at_rest (y.thread i) ≡ true
    → at_rest (y.thread k) ≡ true
    → Unshut y.shared
    → y.shared.once ≡ false
    → y.shared.pool.closed ≡ false
    → is_connection_valid y.shared.pool id ≡ true
    → ltb (length (idle_chan id y.shared.pool)) (idle_capacity y.shared.pool) ≡ true
    → (d : Duo) × (z : System) × (e : Option Error) × (q : Queue) × (qs : List Queue) × Turns w
        (record { common = y.shared; left = entry (calls_put id); right = entry calls_close })
        d
      × Moves w y z
      × Stands z i k d
      × (d.right ≡ returned e)
      × (z.shared.queue_shut q ≡ true)
      × (z.shared.pool.queue q ≡ [])
      × StuckAt w z i id q qs
put_spins w y i k id n h l u f o v r =
    let (x, m, b) = both_start w y i k (calls_put id) calls_close n h l in
    let (d, t, g) = overtakes w y.shared id u f o v r in
    let (z, m', b') = Turns-Moves i k (==_false i k n) w x t b m in
    (
      d,
      z,
      g.ended.0,
      g.q,
      g.qs,
      t,
      m',
      b',
      g.ended.1,
      (Overtaken-Spins g b').shut,
      (Overtaken-Spins g b').empty,
      λ y' ms. (Moves-Spins ms (Overtaken-Spins g b')).stands,
    )
