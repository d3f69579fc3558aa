-- ===== src/Pool/Wait.antt =====
-- pool.go: `waitForConnection`, `waitForConnectionWithProtocol` and
-- `waitForConnectionWithIPVersion`, by the cases of their `select`s. A waiter is its channel and
-- the queue that it joined; the deferred `close(waitChan)` panics on a channel that is closed.
use netconnpool.Prelude.{
  ℕ, suc, ◌-◌, none, some, Bool, true, false, ◌&&◌, [], ◌∷◌, ◌++◌, length, ltb, if◌then◌else◌,
}
use netconnpool.Errors.{Error}
use netconnpool.Protocol.{Protocol, protocol_eq}
use netconnpool.IpVersion.{IpVersion, version_eq}
use netconnpool.Connection.{Connection}
use netconnpool.Stats.{increment_timeout_gets, increment_total_connections_reused, record_get_time}
use netconnpool.Pool.State.{
  Pool, World, Queue, any, v4, v6, tcp, udp, with_stats, update_at, set_queue, is_connection_valid,
}
use netconnpool.Pool.Discard.{close_connection}
use netconnpool.Pool.Borrow.{
  Outcome, got, failed, count_success, count_reused_version, count_reused_protocol, reuse,
}

-- How a step of a waiter ends: it waits on, it returns, or it panics.
pub data Wake : Type 0 where
  waiting : Pool → Wake
  returned : Pool → Outcome → Wake
  panicked : Wake

-- The buffer of each wait queue.
abbrev pub queue_capacity : ℕ
queue_capacity = 100

abbrev pub has_room : Queue → Pool → Bool
has_room q p = ltb (length (p.queue q)) queue_capacity

-- The case `waitQueue <- waitChan`, which is ready while the queue has room. The new channel is
-- `next_chan`.
unfoldable pub join : Queue → Pool → Pool
join q p = set_queue q (p.queue q ++ p.next_chan ∷ []) (record p {
  next_chan = suc p.next_chan;
  chan = update_at p.chan p.next_chan (record { buffer = none; is_closed = false });
})

-- The deferred `close(waitChan)`, and the deferred `RecordGetTime` of the call that waited.
unfoldable pub leave : (started ch : ℕ) → Pool → Outcome → Wake
leave started ch p o =
    if (p.chan ch).is_closed
    then panicked
    else returned
        (with_stats (λ now. record_get_time (now - started) now)
          (record p {
            chan = update_at p.chan ch (record { buffer = (p.chan ch).buffer; is_closed = true });
          }))
        o

-- A call that has not joined its queue: its context is done, or the pool is closed.
abbrev pub turned_away : (started : ℕ) → Pool → Pool × Outcome
turned_away started p = (
  with_stats (λ now. record_get_time (now - started) now) (with_stats increment_timeout_gets p),
  failed Error.get_connection_timeout,
)

abbrev pub shut_out : (started : ℕ) → Pool → Pool × Outcome
shut_out started p =
    (with_stats (λ now. record_get_time (now - started) now) p, failed Error.pool_closed)

-- The kind of connection that a queue is for.
abbrev pub serves : Queue → Connection → Bool
serves any c = true
serves v4 c = version_eq c.ip_version IpVersion.ipv4
serves v6 c = version_eq c.ip_version IpVersion.ipv6
serves tcp c = protocol_eq c.protocol Protocol.tcp
serves udp c = protocol_eq c.protocol Protocol.udp

-- The statistics of a delivery; `waitForConnectionWithProtocol` leaves the IP counters alone.
unfoldable pub count_delivery : Queue → Connection → Pool → Pool
count_delivery tcp c p = count_reused_protocol c p
count_delivery udp c p = count_reused_protocol c p
count_delivery any c p = count_reused_protocol c (count_reused_version c p)
count_delivery v4 c p = count_reused_protocol c (count_reused_version c p)
count_delivery v6 c p = count_reused_protocol c (count_reused_version c p)

unfoldable pub accept : Queue → ℕ → Pool → Pool
accept q id p =
    let p1 = with_stats increment_total_connections_reused (count_success (reuse id p)) in
    count_delivery q (p1.object id) p1

unfoldable pub empty_buffer : ℕ → Pool → Pool
empty_buffer ch p = record p {
  chan = update_at p.chan ch (record { buffer = none; is_closed = (p.chan ch).is_closed });
}

-- The case `conn := <-waitChan`, on a connection in the buffer.
unfoldable pub delivered : World → Queue → (started ch id : ℕ) → Pool → Wake
delivered w q started ch id p =
    let p1 = empty_buffer ch p in
    if serves q (p1.object id) && is_connection_valid p1 id
    then leave started ch (accept q id p1) (got id)
    else waiting (close_connection w p1 id).0

-- The same by what the channel holds: an empty one does not deliver, a closed one gives nil, on
-- which the loop goes on.
unfoldable pub receive : World → Queue → (started ch : ℕ) → Pool → Wake
receive w q started ch p = elim (p.chan ch).buffer [
  | some id ↦ delivered w q started ch id p
  | none ↦ waiting p
]

-- Before they leave, the first two kinds of waiter drain the channel;
-- `waitForConnectionWithIPVersion` does not.
unfoldable pub drain : Queue → ℕ → Pool → Pool
drain any ch p = empty_buffer ch p
drain tcp ch p = empty_buffer ch p
drain udp ch p = empty_buffer ch p
drain v4 ch p = p
drain v6 ch p = p

-- The case `ctx.Done()`.
unfoldable pub give_up : Queue → (started ch : ℕ) → Pool → Wake
give_up q started ch p =
    leave started ch (with_stats increment_timeout_gets (drain q ch p))
      (failed Error.get_connection_timeout)

-- The case `p.closeChan`.
unfoldable pub pool_gone : Queue → (started ch : ℕ) → Pool → Wake
pool_gone q started ch p = leave started ch (drain q ch p) (failed Error.pool_closed)
