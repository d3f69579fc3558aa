-- ===== src/Pool/Threads/System.antt =====
-- A pool and the goroutines that use it, in any interleaving of their accesses.
use netconnpool.Prelude.{ℕ, ◌+◌, ◌≡◌, Bool, true, false}
use netconnpool.Config.{Config}
use netconnpool.Pool.State.{World, new_pool, update_at}
use netconnpool.Pool.Threads.Defs.{
  Shared, Thread, idle, gets, puts, sweeps, shuts, gave, returned, get_starts, put_tests,
  sweep_tests, shut_starts, with_pool,
}
use netconnpool.Pool.Threads.Act.{act}

pub record System : Type 0 where
  pub shared : Shared
  pub thread : ℕ → Thread

-- A thread that can call the next method. One that has panicked calls nothing more.
abbrev pub at_rest : Thread → Bool
at_rest idle = true
at_rest (gave o) = true
at_rest (returned e) = true
at_rest _ = false

-- Where the methods start: `GetWithTimeout`, `Put` of any connection, a round of the cleanup for a
-- connection, `Close`.
pub data Call : Type 0 where
  calls_get calls_close : Call
  calls_put calls_sweep : ℕ → Call

abbrev pub entry : Call → Thread
entry calls_get = gets 0 get_starts
entry calls_close = shuts shut_starts
entry (calls_put id) = puts (put_tests id)
entry (calls_sweep id) = sweeps (sweep_tests id)

abbrev pub moved : System → ℕ → Shared × Thread → System
moved y i r = record { shared = r.0; thread = update_at y.thread i r.1 }

-- One thread does its next access, or calls a method, or time passes.
pub data Move (w : World) : System → System → Type 0 where
  acts : (y : System) (i : ℕ) → Move w y (moved y i (act w y.shared (y.thread i)))
  starts :
      (y : System) (i : ℕ) (c : Call)
      → at_rest (y.thread i) ≡ true
      → Move w y (moved y i (y.shared, entry c))
  passes :
      (y : System) (t : ℕ)
      → Move w y (record y {
        shared = with_pool y.shared (record y.shared.pool { now = y.shared.pool.now + t });
      })

-- What the literal of `NewPool` makes.
abbrev pub new_shared : Config → (now : ℕ) → Shared
new_shared config now = record {
  pool = new_pool config now;
  permits = 0;
  once = false;
  tcp_shut = false;
  udp_shut = false;
  queue_shut = λ q. false;
}

abbrev pub new_system : Config → (now : ℕ) → System
new_system config now = record { shared = new_shared config now; thread = λ i. idle }

pub data Moves (w : World) : System → System → Type 0 where
  here : (y : System) → Moves w y y
  next : {y z u : System} → Moves w y z → Move w z u → Moves w y u
