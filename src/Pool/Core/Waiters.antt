-- ===== src/Pool/Core/Waiters.antt =====
-- The waiting methods keep the invariant of the map.
use netconnpool.Prelude.{ℕ, Option, none, some, ◌&&◌, if_cases, arith}
use netconnpool.Connection.{Connection}
use netconnpool.Stats.{increment_timeout_gets, increment_total_connections_reused}
use netconnpool.Pool.State.{Pool, World, Queue, any, v4, v6, tcp, udp, is_connection_valid}
use netconnpool.Pool.Borrow.{Outcome, got}
use netconnpool.Pool.Wait.{
  Wake, waiting, returned, panicked, join, leave, accept, empty_buffer, drain, count_delivery,
  delivered, receive, give_up, pool_gone, serves,
}
use netconnpool.Pool.Core.Defs.{Core, Keeps, Keeps-refl, Keeps-trans, Keeps-Core}
use netconnpool.Pool.Core.Kept.{
  then_stats, then_success, then_reuse, then_idle_protocol, then_idle_version,
}
use netconnpool.Pool.Core.Unchanged.{elsewhere-Keeps}
use netconnpool.Pool.Core.Discarded.{close_connection-Core}
use netconnpool.Pool.Core.Methods.{record_get_time-Keeps}

-- The state that a step of a waiter leaves; a panic leaves none.
abbrev pub WakeCore : Wake → Type 0
WakeCore (waiting p) = Core p
WakeCore (returned p o) = Core p
WakeCore panicked = Unit {0}

-- A waiter that joins a queue.
pub join-Keeps : (q : Queue) (p : Pool) → Keeps p (join q p)
unfolding join
join-Keeps q p = elsewhere-Keeps p

leave-Core : (started ch : ℕ) (p : Pool) (o : Outcome) → Core p → WakeCore (leave started ch p o)
unfolding leave
leave-Core started ch p o c =
    if_cases WakeCore (p.chan ch).is_closed (λ _. tt)
      (λ _. Keeps-Core (Keeps-trans (elsewhere-Keeps p) (record_get_time-Keeps started _)) c)

empty_buffer-Keeps : (ch : ℕ) (p : Pool) → Keeps p (empty_buffer ch p)
unfolding empty_buffer
empty_buffer-Keeps ch p = elsewhere-Keeps p

count_delivery-Keeps :
    (q : Queue) (c : Connection) (p r : Pool) → Keeps p r → Keeps p (count_delivery q c r)
unfolding count_delivery
count_delivery-Keeps tcp c p r k = then_idle_protocol p _ c.protocol k
count_delivery-Keeps udp c p r k = then_idle_protocol p _ c.protocol k
count_delivery-Keeps any c p r k =
    then_idle_protocol p _ c.protocol (then_idle_version p _ c.ip_version k)
count_delivery-Keeps v4 c p r k =
    then_idle_protocol p _ c.protocol (then_idle_version p _ c.ip_version k)
count_delivery-Keeps v6 c p r k =
    then_idle_protocol p _ c.protocol (then_idle_version p _ c.ip_version k)

accept-Keeps : (q : Queue) (id : ℕ) (p : Pool) → Keeps p (accept q id p)
unfolding accept
accept-Keeps q id p = count_delivery-Keeps q _ p _ (
    then_stats p increment_total_connections_reused (λ now s. ground arith)
      (then_success p (then_reuse p id (Keeps-refl p))))

delivered-Core :
    (w : World) (q : Queue) (started ch id : ℕ) (p : Pool)
    → Core p
    → WakeCore (delivered w q started ch id p)
unfolding delivered
delivered-Core w q started ch id p c =
    let k = empty_buffer-Keeps ch p in
    if_cases WakeCore
      (serves q ((empty_buffer ch p).object id) && is_connection_valid (empty_buffer ch p) id)
      (λ _.
        leave-Core started ch _ (got id)
          (Keeps-Core (Keeps-trans k (accept-Keeps q id (empty_buffer ch p))) c))
      (λ _. close_connection-Core w _ id (Keeps-Core k c))

-- What a channel holds.
receive_from-Core :
    (w : World) (q : Queue) (started ch : ℕ) (p : Pool) (o : Option ℕ)
    → Core p
    → WakeCore (elim o [ some id ↦ delivered w q started ch id p | none ↦ waiting p ])
receive_from-Core w q started ch p none c = c
receive_from-Core w q started ch p (some id) c = delivered-Core w q started ch id p c

pub receive-Core :
    (w : World) (q : Queue) (started ch : ℕ) (p : Pool)
    → Core p
    → WakeCore (receive w q started ch p)
unfolding receive
receive-Core w q started ch p c = receive_from-Core w q started ch p (p.chan ch).buffer c

drain-Keeps : (q : Queue) (ch : ℕ) (p : Pool) → Keeps p (drain q ch p)
unfolding drain
drain-Keeps any ch p = empty_buffer-Keeps ch p
drain-Keeps tcp ch p = empty_buffer-Keeps ch p
drain-Keeps udp ch p = empty_buffer-Keeps ch p
drain-Keeps v4 ch p = Keeps-refl p
drain-Keeps v6 ch p = Keeps-refl p

pub give_up-Core :
    (q : Queue) (started ch : ℕ) (p : Pool) → Core p → WakeCore (give_up q started ch p)
unfolding give_up
give_up-Core q started ch p c = leave-Core started ch _ _ (
    Keeps-Core (then_stats p increment_timeout_gets (λ now s. ground arith) (drain-Keeps q ch p)) c)

pub pool_gone-Core :
    (q : Queue) (started ch : ℕ) (p : Pool) → Core p → WakeCore (pool_gone q started ch p)
unfolding pool_gone
pool_gone-Core q started ch p c = leave-Core started ch _ _ (Keeps-Core (drain-Keeps q ch p) c)
