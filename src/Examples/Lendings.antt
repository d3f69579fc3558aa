-- ===== src/Examples/Lendings.antt =====
-- A connection that is created by a warm-up, lent, given back and lent again.
use netconnpool.Prelude.{◌≡◌, List, [], ◌∷◌, refl, true, member}
use netconnpool.Pool.State.{Pool}
use netconnpool.Pool.Get.{
  get_with_timeout, timeout_loop, timeout_turn, timeout_pick, timeout_created,
}
use netconnpool.Pool.Create.{create_connection, dialed, created, register}
use netconnpool.Pool.Borrow.{take_any, take_both, lend_new}
use netconnpool.Pool.Put.{put}
use netconnpool.Pool.State.{is_connection_valid}
use netconnpool.Protocol.{detect_protocol}
use netconnpool.Pool.Lending.{Event, lent, Runs}
use netconnpool.Pool.Lending.Calls.{event_of}
use netconnpool.Pool.Lending.Traces.{Trace, opens, goes, use_get, use_put, put_event, Trace-Runs}
use netconnpool.Examples.Pools.{tcp_world, small_config, small_pool}
use netconnpool.Prelude.{some}

abbrev first_pool : Pool
first_pool = (get_with_timeout tcp_world small_pool).0

abbrev last_pool : Pool
last_pool = (put tcp_world first_pool (some 1)).0

abbrev events : List Event
events = put_event first_pool 1 ∷ event_of (get_with_timeout tcp_world small_pool).1 ∷ []

first_lent : lent first_pool 1 ≡ true
unfolding get_with_timeout timeout_loop timeout_turn timeout_pick timeout_created take_any take_both
    create_connection dialed created register lend_new detect_protocol is_connection_valid member
first_lent = refl

lendings-Trace : Trace tcp_world small_config events last_pool
lendings-Trace = goes (goes (opens 5_000) (use_get small_pool)) (use_put 1 first_pool first_lent)

Trace-Runs_example : Runs events (lent last_pool)
Trace-Runs_example = Trace-Runs lendings-Trace
