-- ===== src/Pool/Get.antt =====
-- pool.go: `GetWithTimeout`. A call that reaches `waitForConnection` ends here with `waits`.
use netconnpool.Prelude.{ℕ, zero, suc, ◌+◌, ◌-◌, none, some, length, if◌then◌else◌}
use netconnpool.Errors.{Error, Result, ok, err}
use netconnpool.Stats.{increment_total_get_requests, record_get_time}
use netconnpool.Pool.State.{Pool, World, any, with_stats, at_limit, is_connection_valid}
use netconnpool.Pool.Discard.{close_connection}
use netconnpool.Pool.Create.{create_connection}
use netconnpool.Pool.Borrow.{
  Outcome, got, failed, waits, stuck, Turn, again, stop, take_any, lend_idle, lend_new,
  count_connection_error,
}
use netconnpool.Prelude.{Option}

-- The result of `createConnection` in `GetWithTimeout`.
unfoldable pub timeout_created : Pool × Result ℕ → Turn
timeout_created (p, ok id) = stop (lend_new id p) (got id)
timeout_created (p, err Error.max_connections_reached) = stop (count_connection_error p) (waits any)
timeout_created (p, err e) = stop (count_connection_error p) (failed e)

-- What an idle connection, or the lack of one, leads to in a round of the loop.
unfoldable pub timeout_pick : World → Option (ℕ × Pool) → Pool → Turn
timeout_pick w (some (id, p1)) p =
    if is_connection_valid p1 id
    then stop (lend_idle id p1) (got id)
    else again (close_connection w p1 id).0
timeout_pick w none p =
    if at_limit p then stop p (waits any) else timeout_created (create_connection w p)

-- One round of the loop of `GetWithTimeout`.
unfoldable pub timeout_turn : World → Pool → Turn
timeout_turn w p =
    if p.closed then stop p (failed Error.pool_closed) else timeout_pick w (take_any w p) p

-- The loop, with fuel for its rounds.
unfoldable pub timeout_loop : World → ℕ → Pool → Pool × Outcome
timeout_loop w zero p = (p, stuck)
timeout_loop w (suc fuel) p = elim (timeout_turn w p) [
  | again p' ↦ timeout_loop w fuel p'
  | stop p' o ↦ (p', o)
]

-- The deferred `RecordGetTime`, of a call that does not wait.
abbrev pub finish_get : (started : ℕ) → Pool × Outcome → Pool × Outcome
finish_get started (p, waits q) = (p, waits q)
finish_get started (p, o) = (with_stats (λ now. record_get_time (now - started) now) p, o)

-- Every round but the last takes a connection from an idle channel.
abbrev pub timeout_fuel : Pool → ℕ
timeout_fuel p = suc (length p.idle_tcp + length p.idle_udp)

unfoldable pub get_with_timeout : World → Pool → Pool × Outcome
get_with_timeout w p =
    if p.closed
    then (p, failed Error.pool_closed)
    else let p1 = with_stats increment_total_get_requests p in
      finish_get p.now (timeout_loop w (timeout_fuel p1) p1)
