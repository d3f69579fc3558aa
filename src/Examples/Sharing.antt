-- ===== src/Examples/Sharing.antt =====
-- A connection given back while a waiter for TCP is queued.
use netconnpool.Pool.Order.{Chosen, Refusing, notify_first}
use netconnpool.Pool.Notify.{notify_specific_wait_queue}
use netconnpool.Prelude.{◌≡◌, some, []}
use netconnpool.Pool.Put.{put}
use netconnpool.Pool.Borrow.{got}
use netconnpool.Pool.State.{Pool, tcp}
use netconnpool.Pool.Get.{get_with_timeout}
use netconnpool.Pool.Wait.{receive, returned}
use netconnpool.Pool.Sharing.{Awaited, put-lends_twice}
use netconnpool.Examples.Pools.{tcp_world}
use netconnpool.Examples.Lent.{lent_pool, AsLent, lent_pool-AsLent}
use netconnpool.Prelude.{true}
use netconnpool.Pool.State.{update_at}
use netconnpool.Prelude.{false}
use netconnpool.Prelude.{◌⊎◌}

abbrev facts : AsLent lent_pool
facts = lent_pool-AsLent

lent_pool-Awaited : Awaited lent_pool 1 0 []
lent_pool-Awaited = record {
  open_ = facts.open_;
  valid = facts.valid;
  is_tcp = facts.is_tcp;
  room = facts.room;
  waiter = facts.waiter;
  ready = facts.ready;
}

put-lends_twice_example :
    (r : Pool) × (receive tcp_world tcp 5_000 0 (put tcp_world lent_pool (some 1)).0
      ≡ returned r (got 1))
    × ((get_with_timeout tcp_world r).1 ≡ got 1)
put-lends_twice_example =
    put-lends_twice tcp_world lent_pool 1 0 [] lent_pool-Awaited 5_000 facts.no_tcp facts.no_udp

notify_first_example :
    ((c : Chosen lent_pool.chan (lent_pool.queue tcp)) × ((notify_specific_wait_queue tcp 1
          lent_pool).1
        ≡ true)
      × ((notify_specific_wait_queue tcp 1 lent_pool).0.queue tcp ≡ c.rest)
      × ((notify_specific_wait_queue tcp 1 lent_pool).0.chan
          ≡ update_at lent_pool.chan c.ch (record { buffer = some 1; is_closed = false })))
    ⊎ (Refusing lent_pool.chan (lent_pool.queue tcp)
        × ((notify_specific_wait_queue tcp 1 lent_pool).1 ≡ false)
        × ((notify_specific_wait_queue tcp 1 lent_pool).0.queue tcp ≡ [])
        × ((notify_specific_wait_queue tcp 1 lent_pool).0.chan ≡ lent_pool.chan))
notify_first_example = notify_first tcp 1 lent_pool
