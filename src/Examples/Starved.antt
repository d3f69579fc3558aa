-- ===== src/Examples/Starved.antt =====
-- A connection that has expired by the time when a waiter takes it from its channel.
use netconnpool.Prelude.{◌≡◌, ◌≤◌, ◌+◌, some, refl, member}
use netconnpool.Protocol.{detect_protocol}
use netconnpool.Pool.State.{Pool, tcp, is_connection_valid}
use netconnpool.Pool.Put.{put, to_idle, hand_back}
use netconnpool.Pool.Notify.{notify_wait_queue, try_queue, notify_specific_wait_queue, offer}
use netconnpool.Pool.Create.{create_connection, dialed, created, register}
use netconnpool.Pool.Borrow.{take_any, take_both, lend_new}
use netconnpool.Pool.Get.{
  get_with_timeout, timeout_loop, timeout_turn, timeout_pick, timeout_created,
}
use netconnpool.Pool.Discard.{close_connection}
use netconnpool.Pool.Wait.{join, waiting, receive, delivered, empty_buffer}
use netconnpool.Pool.Run.{Reach, start, next, gets, joins, puts, passes}
use netconnpool.Pool.Waiters.Weights.{places, full}
use netconnpool.Pool.Waiters.Starved.{here, Reach_places, receive_starves}
use netconnpool.Examples.Pools.{tcp_world, small_config, small_pool}
use netconnpool.Examples.Lent.{lent_pool, no_waiters}

abbrev given_pool : Pool
given_pool = (put tcp_world lent_pool (some 1)).0

-- An hour later.
abbrev late_pool : Pool
late_pool = record given_pool { now = given_pool.now + 3_600_000_000_000 }

late_pool-Reach : Reach tcp_world small_config late_pool
late_pool-Reach =
    next
      (next (next (next (start 5_000) (gets small_pool)) (joins tcp _ no_waiters))
        (puts (some 1) lent_pool))
      (passes 3_600_000_000_000 given_pool)

Reach_places_example : places 0 late_pool.queue + full (late_pool.chan 0) ≤ 1
Reach_places_example = Reach_places 0 late_pool-Reach

abbrev starved_pool : Pool
starved_pool = (close_connection tcp_world (empty_buffer 0 late_pool) 1).0

late_full : (late_pool.chan 0).buffer ≡ some 1
unfolding put to_idle hand_back notify_wait_queue try_queue notify_specific_wait_queue offer
    get_with_timeout timeout_loop timeout_turn timeout_pick timeout_created take_any take_both
    create_connection dialed created register lend_new join member detect_protocol
    is_connection_valid
late_full = refl

late_waits : receive tcp_world tcp 5_000 0 late_pool ≡ waiting starved_pool
unfolding receive delivered empty_buffer put to_idle hand_back notify_wait_queue try_queue
    notify_specific_wait_queue offer get_with_timeout timeout_loop timeout_turn timeout_pick
    timeout_created take_any take_both create_connection dialed created register lend_new join
    member detect_protocol is_connection_valid
late_waits = refl

receive_starves_example :
    (places 0 starved_pool.queue ≡ 0)
    × (receive tcp_world tcp 5_000 0 starved_pool ≡ waiting starved_pool)
receive_starves_example =
    receive_starves tcp 5_000 0 1 late_pool-Reach late_full late_waits (here starved_pool)
