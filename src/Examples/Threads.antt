-- ===== src/Examples/Threads.antt =====
-- Goroutines of a pool that interleave.
use netconnpool.Prelude.{◌≡◌, refl, sym, none, some, true, false, ◌∷◌, member, Option}
use netconnpool.Errors.{Error}
use netconnpool.Protocol.{Protocol}
use netconnpool.IpVersion.{ipv4}
use netconnpool.Connection.{new_connection}
use netconnpool.Pool.State.{Pool, has_socket, is_connection_valid}
use netconnpool.Pool.Put.{put}
use netconnpool.Pool.Get.{get_with_timeout}
use netconnpool.Pool.Cleanup.{sweep_one}
use netconnpool.Pool.Borrow.{got}
use netconnpool.Prelude.{length, ltb}
use netconnpool.Protocol.{detect_protocol}
use netconnpool.Pool.Put.{idle_chan, idle_capacity}
use netconnpool.Pool.Create.{create_connection, dialed, created, register}
use netconnpool.Pool.Borrow.{take_any, take_both, lend_new}
use netconnpool.Pool.Get.{timeout_loop, timeout_turn, timeout_pick, timeout_created}
use netconnpool.Pool.Wait.{join}
use netconnpool.Pool.Threads.Overtaken.{StuckAt, put_spins}
use netconnpool.Prelude.{List}
use netconnpool.Pool.State.{Queue}
use netconnpool.Pool.Threads.Duo.{Duo, Turns, Stands}
use netconnpool.Pool.Threads.Defs.{Shared, with_pool, gave, returned, panicked, idle}
use netconnpool.Pool.Threads.System.{
  System, Moves, here, next, acts, starts, new_shared, new_system, moved, entry, calls_put,
  calls_get, calls_sweep, calls_close,
}
use netconnpool.Pool.Threads.Act.{act}
use netconnpool.Pool.Threads.Placed.{Sound, Moves-Sound}
use netconnpool.Pool.Threads.Alone.{Runs}
use netconnpool.Pool.Threads.Alone.Agrees.{entry-Runs, closed_as}
use netconnpool.Pool.Threads.Overlaps.{put_panics}
use netconnpool.Pool.Threads.Swept.{get_swept}
use netconnpool.Examples.Pools.{tcp_world, small_config, small_pool, tcp_socket}
use netconnpool.Examples.Lent.{lent_pool, lent_pool-AsLent}
use netconnpool.Prelude.{[]}

abbrev shared_of : Pool → Shared
shared_of p = with_pool (new_shared small_config 5_000) p

-- Nothing is called yet.
abbrev system_of : Pool → System
system_of p = record { shared = shared_of p; thread = λ i. idle }

-- Two goroutines have called `GetWithTimeout`, and the first has counted its request.
abbrev one_called : System
one_called =
    moved (new_system small_config 5_000) 0 (new_shared small_config 5_000, entry calls_get)

abbrev both_called : System
both_called = moved one_called 1 (one_called.shared, entry calls_get)

abbrev one_counted : System
one_counted = moved both_called 0 (act tcp_world both_called.shared (both_called.thread 0))

Moves-Sound_example : Sound one_counted
Moves-Sound_example = Moves-Sound {w = tcp_world} {config = small_config} {now = 5_000} (
    next
      (next
        (next (here (new_system small_config 5_000))
          (starts (new_system small_config 5_000) 0 calls_get refl))
        (starts one_called 1 calls_get refl))
      (acts both_called 0))

entry-Runs_example :
    Runs tcp_world
      (shared_of lent_pool, entry (calls_put 1))
      (
        with_pool (shared_of lent_pool) (put tcp_world lent_pool (some 1)).0,
        returned (put tcp_world lent_pool (some 1)).1,
      )
    × Runs tcp_world
        (shared_of lent_pool, entry calls_get)
        (
          with_pool (shared_of lent_pool) (get_with_timeout tcp_world lent_pool).0,
          gave (get_with_timeout tcp_world lent_pool).1,
        )
    × Runs tcp_world
        (shared_of lent_pool, entry (calls_sweep 1))
        (with_pool (shared_of lent_pool) (sweep_one tcp_world 1 lent_pool), returned none)
    × Runs tcp_world
        (act tcp_world (shared_of lent_pool) (entry calls_close))
        (closed_as tcp_world (shared_of lent_pool))
entry-Runs_example =
    entry-Runs tcp_world (shared_of lent_pool) 1
      (record { tcp_open = refl; udp_open = refl; queues_open = λ q. refl }) refl
      (sym lent_pool-AsLent.open_)

put_panics_example :
    (z : System) × Moves tcp_world (system_of lent_pool) z × (z.thread 0 ≡ panicked)
put_panics_example =
    put_panics tcp_world (system_of lent_pool) 0 1 1 (λ e. cc) refl refl refl lent_pool-AsLent.open_
      lent_pool-AsLent.valid

-- A connection that has been idle for ten minutes.
abbrev old_pool : Pool
old_pool = record small_pool {
  object = λ id. new_connection (some (tcp_socket id)) Protocol.tcp ipv4 5_000;
  connections = 1 ∷ [];
  idle_tcp = 1 ∷ [];
  next_id = 1;
  now = 600_000_005_000;
}

old_valid : is_connection_valid old_pool 1 ≡ true
unfolding is_connection_valid
old_valid = refl

get_swept_example :
    (d : Duo) × (z : System) × Turns tcp_world
      (record {
        common = shared_of old_pool;
        left = entry calls_get;
        right = entry (calls_sweep 1);
      })
      d
    × Moves tcp_world (system_of old_pool) z
    × Stands z 0 1 d
    × (d.left ≡ gave (got 1))
    × (d.right ≡ returned none)
    × ((d.common.pool.object 1).in_use ≡ true)
    × (has_socket (d.common.pool.object 1).conn ≡ false)
get_swept_example =
    get_swept tcp_world (system_of old_pool) 0 1 1 [] (λ e. cc) refl refl refl refl refl refl
      old_valid refl refl

lent_pool_room : ltb (length (idle_chan 1 lent_pool)) (idle_capacity lent_pool) ≡ true
unfolding get_with_timeout timeout_loop timeout_turn timeout_pick timeout_created take_any take_both
    create_connection dialed created register lend_new join member detect_protocol
lent_pool_room = refl

put_spins_example :
    (d : Duo) × (z : System) × (e : Option Error) × (q : Queue) × (qs : List Queue) × Turns
      tcp_world
      (record {
        common = shared_of lent_pool;
        left = entry (calls_put 1);
        right = entry calls_close;
      })
      d
    × Moves tcp_world (system_of lent_pool) z
    × Stands z 0 1 d
    × (d.right ≡ returned e)
    × (z.shared.queue_shut q ≡ true)
    × (z.shared.pool.queue q ≡ [])
    × StuckAt tcp_world z 0 1 q qs
put_spins_example =
    put_spins tcp_world (system_of lent_pool) 0 1 1 (λ e. cc) refl refl
      (record { tcp_open = refl; udp_open = refl; queues_open = λ q. refl }) refl
      lent_pool-AsLent.open_ lent_pool-AsLent.valid lent_pool_room
