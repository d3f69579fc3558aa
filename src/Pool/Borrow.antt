-- ===== src/Pool/Borrow.antt =====
-- pool.go: what the `Get` methods share: taking a connection from the idle channels, and lending
-- one to the caller.
use netconnpool.Prelude.{ℕ, suc, Option, none, some, List, [], ◌∷◌, if◌then◌else◌}
use netconnpool.Prelude.Word.{minus_one}
use netconnpool.Errors.{Error}
use netconnpool.Protocol.{Protocol}
use netconnpool.Connection.{Connection, mark_in_use, increment_reuse_count}
use netconnpool.Stats.{
  increment_successful_gets, increment_current_active_connections,
  increment_current_idle_connections, increment_total_connections_reused,
  increment_current_ipv4_idle_connections, increment_current_ipv6_idle_connections,
  increment_current_tcp_idle_connections, increment_current_udp_idle_connections,
  increment_failed_gets, increment_connection_errors,
}
use netconnpool.Pool.State.{
  Pool, World, Queue, borrows, with_stats, on_object, by_version, by_protocol,
}

-- How a call ends, or goes on: `waits q` is the call of `waitForConnection`,
-- `waitForConnectionWithProtocol` or `waitForConnectionWithIPVersion` that joins the queue `q`
-- (Pool/Wait), `stuck` that the fuel of a loop ran out.
pub data Outcome : Type 0 where
  got : ℕ → Outcome
  failed : Error → Outcome
  waits : Queue → Outcome
  stuck : Outcome

-- One round of a loop: it goes round again, or returns.
pub data Turn : Type 0 where
  again : Pool → Turn
  stop : Pool → Outcome → Turn

-- `select` over both idle channels, with `default`.
unfoldable pub take_both : World → List ℕ → List ℕ → Pool → Option (ℕ × Pool)
take_both w [] [] p = none
take_both w (x ∷ xs) [] p = some (x, record p { idle_tcp = xs })
take_both w [] (y ∷ ys) p = some (y, record p { idle_udp = ys })
take_both w (x ∷ xs) (y ∷ ys) p = some (
    if w.prefers_tcp p.asked
    then (x, record p { idle_tcp = xs; asked = suc p.asked })
    else (y, record p { idle_udp = ys; asked = suc p.asked }))

unfoldable pub take_any : World → Pool → Option (ℕ × Pool)
take_any w p = take_both w p.idle_tcp p.idle_udp p

-- `select` over the idle channel of a protocol, with `default`.
unfoldable pub take_tcp : List ℕ → Pool → Option (ℕ × Pool)
take_tcp [] p = none
take_tcp (x ∷ xs) p = some (x, record p { idle_tcp = xs })

unfoldable pub take_udp : List ℕ → Pool → Option (ℕ × Pool)
take_udp [] p = none
take_udp (y ∷ ys) p = some (y, record p { idle_udp = ys })

unfoldable pub take_protocol : Protocol → Pool → Option (ℕ × Pool)
take_protocol Protocol.tcp p = take_tcp p.idle_tcp p
take_protocol Protocol.udp p = take_udp p.idle_udp p
take_protocol Protocol.unknown p = take_udp p.idle_udp p

-- The hook OnBorrow.
abbrev pub call_on_borrow : ℕ → Pool → Pool
call_on_borrow id p =
    if p.config.on_borrow then record p { effects = borrows (p.object id).conn ∷ p.effects } else p

abbrev pub count_reused_version : Connection → Pool → Pool
count_reused_version c = with_stats (
    by_version (increment_current_ipv4_idle_connections minus_one)
      (increment_current_ipv6_idle_connections minus_one) c.ip_version)

abbrev pub count_reused_protocol : Connection → Pool → Pool
count_reused_protocol c = with_stats (
    by_protocol (increment_current_tcp_idle_connections minus_one)
      (increment_current_udp_idle_connections minus_one) c.protocol)

abbrev pub count_success : Pool → Pool
count_success p =
    with_stats (increment_current_active_connections 1) (with_stats increment_successful_gets p)

-- `MarkInUse`, `IncrementReuseCount` and the hook, for a connection that was idle.
abbrev pub reuse : ℕ → Pool → Pool
reuse id p =
    call_on_borrow id (on_object id increment_reuse_count (on_object id (mark_in_use p.now) p))

abbrev pub count_reuse : Pool → Pool
count_reuse p =
    with_stats increment_total_connections_reused
      (with_stats (increment_current_idle_connections minus_one) (count_success p))

-- An idle connection is lent, in `GetWithTimeout` and `GetWithIPVersion`.
unfoldable pub lend_idle : ℕ → Pool → Pool
lend_idle id p =
    count_reused_protocol (p.object id)
      (count_reused_version (p.object id) (count_reuse (reuse id p)))

-- The same in `GetWithProtocol`, which leaves the counters by IP version alone.
unfoldable pub lend_idle_of_protocol : ℕ → Pool → Pool
lend_idle_of_protocol id p = count_reused_protocol (p.object id) (count_reuse (reuse id p))

-- A new connection is lent.
unfoldable pub lend_new : ℕ → Pool → Pool
lend_new id p = count_success (call_on_borrow id (on_object id (mark_in_use p.now) p))

abbrev pub count_failure : Pool → Pool
count_failure = with_stats increment_failed_gets

abbrev pub count_connection_error : Pool → Pool
count_connection_error p = with_stats increment_connection_errors (count_failure p)
