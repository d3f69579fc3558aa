-- ===== src/Pool/Threads/Outlived.antt =====
-- pool.go: `Close` that overlaps the creation of a connection for `GetWithTimeout`.
use netconnpool.Prelude.{ℕ, suc, ◌≡◌, true, false, ltb, member}
use netconnpool.Errors.{ok}
use netconnpool.Net.Addr.{NetConn}
use netconnpool.Stats.{increment_total_get_requests}
use netconnpool.Pool.State.{Pool, World, has_socket, with_stats, asks, at_limit}
use netconnpool.Pool.Create.{register, lacks_source}
use netconnpool.Pool.Borrow.{got, lend_new}
use netconnpool.Pool.Get.{finish_get}
use netconnpool.Pool.Shutdown.{close}
use netconnpool.Pool.Racing.{permits}
use netconnpool.Pool.Threads.System.{System}
use netconnpool.Pool.Threads.Alone.{done}
use netconnpool.Pool.Threads.Duo.{Duo}
use netconnpool.Pool.Threads.Defs.{Shared, gave, returned}
use netconnpool.Prelude.{[]}
use netconnpool.Prelude.{some}

-- An open pool that creates a connection when one is asked for.
pub record Creates (w : World) (s : Shared) (socket : NetConn) : Type 0 where
  pub open_ : s.pool.closed ≡ false
  pub tcp_open : s.tcp_shut ≡ false
  pub no_close : s.once ≡ false
  pub no_tcp : s.pool.idle_tcp ≡ []
  pub no_udp : s.pool.idle_udp ≡ []
  pub room : at_limit s.pool ≡ false
  pub has_source : lacks_source s.pool.config.mode s.pool.config ≡ false
  pub no_hook : s.pool.config.on_created ≡ false
  pub permit : ltb s.permits permits ≡ true
  pub not_done : w.done s.pool.asked ≡ false
  pub answer : w.dial s.pool.asked ≡ ok (some socket)

module _ (w : World) (s : Shared) (socket : NetConn) (c : Creates w s socket) where
  -- The pool when the dialer has answered.
  abbrev dialed_pool : Pool
  dialed_pool = asks w (with_stats increment_total_get_requests s.pool)

  -- The pool when `Close` has returned, and when `Get` has.
  abbrev closed_pool : Pool
  closed_pool = (close w dialed_pool).0

  abbrev newest : ℕ
  newest = suc closed_pool.next_id

  abbrev registered_pool : Pool
  registered_pool = (register w (some socket) closed_pool).0

  abbrev last_pool : Pool
  last_pool = (finish_get s.pool.now (lend_new newest registered_pool, got newest)).0

  -- What is left of the two calls.
  record Outlived (e : Duo) : Type 0 where
    got_it : e.left ≡ gave (got newest)
    closed_it : e.right ≡ returned (close w dialed_pool).1
    no_longer_open : e.common.pool.closed ≡ true
    listed : member newest e.common.pool.connections ≡ true
    socket_open : has_socket (e.common.pool.object newest).conn ≡ true
