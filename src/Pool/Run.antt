-- ===== src/Pool/Run.antt =====
-- pool.go: the steps of a running pool, by any number of goroutines. A method runs to its end or to
-- a blocking `select` in one step; the waiters and `Close` are taken apart where another goroutine
-- can come between. Any waiter may take any of its steps at any time. The passes of the leak detector
-- and of the cleanup are one step each, and so is the check of one connection.
use netconnpool.Prelude.{ℕ, ◌+◌, ◌≡◌, Option, true, false}
use netconnpool.Protocol.{Protocol}
use netconnpool.IpVersion.{IpVersion}
use netconnpool.Config.{Config}
use netconnpool.Pool.State.{Pool, World, Queue, new_pool}
use netconnpool.Pool.Put.{put}
use netconnpool.Pool.Borrow.{Outcome}
use netconnpool.Pool.Get.{get_with_timeout}
use netconnpool.Pool.GetProtocol.{get_with_protocol}
use netconnpool.Pool.GetVersion.{get_with_ip_version}
use netconnpool.Pool.Wait.{waiting, returned, join, has_room, receive, give_up, pool_gone}
use netconnpool.Pool.Shutdown.{begin_close, close_connections, close_wait_queues, close_idle}
use netconnpool.Pool.WarmUp.{warm_up}
use netconnpool.Pool.Leak.{detect_leaks}
use netconnpool.Pool.Health.{check_connection}
use netconnpool.Pool.Cleanup.{perform_cleanup}
use netconnpool.Prelude.{member}
use netconnpool.Prelude.{Bool}
use netconnpool.Pool.Wait.{turned_away}
use netconnpool.Pool.Wait.{shut_out}

pub data Step (w : World) : Pool → Pool → Type 0 where
  warms : (p : Pool) → Step w p (warm_up w p)
  gets : (p : Pool) → Step w p (get_with_timeout w p).0
  gets_protocol : (k : Protocol) (p : Pool) → Step w p (get_with_protocol w k p).0
  gets_version : (v : IpVersion) (p : Pool) → Step w p (get_with_ip_version w v p).0
  puts : (conn : Option ℕ) (p : Pool) → Step w p (put w p conn).0
  joins : (q : Queue) (p : Pool) → has_room q p ≡ true → Step w p (join q p)
  turns_away : (started : ℕ) (p : Pool) → Step w p (turned_away started p).0
  shuts_out : (started : ℕ) (p : Pool) → p.closed ≡ true → Step w p (shut_out started p).0
  receives :
      {p r : Pool} {o : Outcome} (q : Queue) (started ch : ℕ)
      → receive w q started ch p ≡ returned r o
      → Step w p r
  waits_on :
      {p r : Pool} (q : Queue) (started ch : ℕ) → receive w q started ch p ≡ waiting r → Step w p r
  gives_up :
      {p r : Pool} {o : Outcome} (q : Queue) (started ch : ℕ)
      → give_up q started ch p ≡ returned r o
      → Step w p r
  finds_closed :
      {p r : Pool} {o : Outcome} (q : Queue) (started ch : ℕ)
      → p.closed ≡ true
      → pool_gone q started ch p ≡ returned r o
      → Step w p r
  detects : (p : Pool) → p.closed ≡ false → Step w p (detect_leaks p)
  checks :
      (id : ℕ) (answer : Option Bool) (p : Pool)
      → member id p.connections ≡ true
      → Step w p (check_connection id answer p)
  cleans : (p : Pool) → p.closed ≡ false → Step w p (perform_cleanup w p)
  begins_close : (p : Pool) → p.closed ≡ false → Step w p (begin_close p)
  closes_connections : (p : Pool) → p.closed ≡ true → Step w p (close_connections w p).0
  closes_queues : (p : Pool) → p.closed ≡ true → Step w p (close_wait_queues p)
  closes_idle : (p : Pool) → p.closed ≡ true → Step w p (close_idle p)
  passes : (t : ℕ) (p : Pool) → Step w p (record p { now = p.now + t })

-- The states of the pool that `NewPool` makes from a configuration.
pub data Reach (w : World) (config : Config) : Pool → Type 0 where
  start : (now : ℕ) → Reach w config (new_pool config now)
  next : {p q : Pool} → Reach w config p → Step w p q → Reach w config q
