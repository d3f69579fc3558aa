-- ===== src/Pool/Racing.antt =====
-- pool.go: `createConnection` in its two parts, between which other goroutines run. The first takes
-- one of the permits of `createSemaphore` and makes the tests; the second is the callback and what
-- follows it, at whose end the permit is free again.
use netconnpool.Prelude.{ℕ, suc, ◌<◌, ◌≡◌, Bool, true, not, ◌&&◌}
use netconnpool.Config.{Config}
use netconnpool.Pool.State.{Pool, World, new_pool, asks, at_limit}
use netconnpool.Pool.Create.{lacks_source, dialed}
use netconnpool.Pool.Discard.{close_connection}
pub mod Within
pub mod Overshot

-- The capacity of `createSemaphore`.
abbrev pub permits : ℕ
permits = 5

-- The pool, and how many goroutines are past the tests of `createConnection`.
pub record Racing : Type 0 where
  pub pool : Pool
  pub dialing : ℕ

-- The tests: the flag, the length of the map against the limit, the mode with its function.
abbrev pub may_create : Pool → Bool
may_create p = not p.closed && not (at_limit p) && not (lacks_source p.config.mode p.config)

-- Goroutines create connections, and close them.
pub data Move (w : World) : Racing → Racing → Type 0 where
  begins :
      (r : Racing)
      → r.dialing < permits
      → may_create r.pool ≡ true
      → Move w r (record r { dialing = suc r.dialing })
  ends :
      (p : Pool) (n : ℕ)
      → Move w
          (record { pool = p; dialing = suc n })
          (record { pool = (dialed w (w.dial p.asked) (asks w p)).0; dialing = n })
  discards : (id : ℕ) (r : Racing) → Move w r (record r { pool = (close_connection w r.pool id).0 })

-- What becomes of the pool of a configuration.
pub data Races (w : World) (config : Config) : Racing → Type 0 where
  start : (now : ℕ) → Races w config (record { pool = new_pool config now; dialing = 0 })
  next : {r s : Racing} → Races w config r → Move w r s → Races w config s
