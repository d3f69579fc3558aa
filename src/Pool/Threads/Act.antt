-- ===== src/Pool/Threads/Act.antt =====
-- pool.go, cleanup.go: what a goroutine does next, by where it stands. A goroutine that has to wait
-- for a permit, or in `closeOnce` for another `Close`, stays where it is, and so does one whose method
-- has ended.
use netconnpool.Prelude.{
  ℕ, suc, none, true, false, not, ◌∷◌, length, ltb, member, erase, if◌then◌else◌,
}
use netconnpool.Errors.{Error, ok, err}
use netconnpool.Connection.{update_health}
use netconnpool.Stats.{increment_total_connections_closed, increment_total_get_requests}
use netconnpool.Pool.State.{
  Pool, World, any, with_stats, on_object, asks, at_limit, is_connection_valid,
}
use netconnpool.Pool.Notify.{can_send}
use netconnpool.Pool.Discard.{connection_close, count_closed}
use netconnpool.Pool.Put.{clear_udp, idle_capacity, idle_chan, send_idle, count_idle, hand_back}
use netconnpool.Pool.Create.{lacks_source, allocate, insert_connection, count_created}
use netconnpool.Pool.Borrow.{got, failed, waits, lend_idle, lend_new, count_connection_error}
use netconnpool.Pool.Get.{finish_get}
use netconnpool.Pool.Shutdown.{begin_close, first_error}
use netconnpool.Pool.Cleanup.{should_close, remove_from_idle_pool}
use netconnpool.Pool.Racing.{permits}
use netconnpool.Pool.Threads.Defs.{
  Shared, Thread, After, Getting, Creating, Discarding, Putting, Sweeping, Shutting, idle, gets,
  creates, discards, puts, sweeps, shuts, gave, returned, panicked, get_starts, get_tests,
  get_takes, get_measures, get_checks, get_reuses, get_lends, get_ends, create_acquires,
  create_tests, create_measures, create_dials, create_asks, create_makes, create_inserts,
  create_counts, create_ends, discard_marks, discard_deletes, discard_closes, discard_counts,
  put_tests, put_checks, put_returns, put_sends, put_counts, put_notifies, put_offers, sweep_tests,
  sweep_judges, sweep_marks, sweep_retests, shut_starts, shut_snapshots, shut_closes, shut_drains,
  shut_idle_tcp, shut_idle_udp, next_round, returns_error, returns_nothing, with_pool, idle_shut,
  queues_for, all_queues, after, select_idle, dial_answered, hook_answered, creation_ended,
  notified, offered, drained, idle_tcp_drained, idle_udp_drained,
}
use netconnpool.Prelude.{[]}

abbrev pub get_act : World → (started : ℕ) → Shared → Getting → Shared × Thread
get_act w started s get_starts =
    if s.pool.closed
    then (s, gave (failed Error.pool_closed))
    else (with_pool s (with_stats increment_total_get_requests s.pool), gets s.pool.now get_tests)
get_act w started s get_tests =
    if s.pool.closed
    then (s, gets started (get_ends (failed Error.pool_closed)))
    else (s, gets started get_takes)
get_act w started s get_takes = select_idle started w s
get_act w started s get_measures =
    if at_limit s.pool
    then (s, gets started (get_ends (waits any)))
    else (s, creates started create_acquires)
get_act w started s (get_checks id) =
    if is_connection_valid s.pool id
    then (s, gets started (get_reuses id))
    else (s, discards (discard_marks id) (next_round started))
get_act w started s (get_reuses id) =
    (with_pool s (lend_idle id s.pool), gets started (get_ends (got id)))
get_act w started s (get_lends id) =
    (with_pool s (lend_new id s.pool), gets started (get_ends (got id)))
get_act w started s (get_ends o) = (with_pool s (finish_get started (s.pool, o)).0, gave o)

abbrev pub create_act : World → (started : ℕ) → Shared → Creating → Shared × Thread
create_act w started s create_acquires =
    if w.done s.pool.asked
    then (
      with_pool s (count_connection_error s.pool),
      gets started (get_ends (failed Error.context)),
    )
    else if ltb s.permits permits
    then (record s { permits = suc s.permits }, creates started create_tests)
    else (s, creates started create_acquires)
create_act w started s create_tests =
    if s.pool.closed
    then (s, creates started (create_ends (err Error.pool_closed)))
    else (s, creates started create_measures)
create_act w started s create_measures =
    if at_limit s.pool
    then (s, creates started (create_ends (err Error.max_connections_reached)))
    else (s, creates started create_dials)
create_act w started s create_dials =
    if lacks_source s.pool.config.mode s.pool.config
    then (s, creates started (create_ends (err Error.invalid_config)))
    else dial_answered started (with_pool s (asks w s.pool)) (w.dial s.pool.asked)
create_act w started s (create_asks socket) =
    hook_answered started w s socket (w.on_created s.pool.asked)
create_act w started s (create_makes socket) =
    (with_pool s (allocate w socket s.pool), creates started (create_inserts (suc s.pool.next_id)))
create_act w started s (create_inserts id) =
    (with_pool s (insert_connection id (clear_udp id s.pool)), creates started (create_counts id))
create_act w started s (create_counts id) =
    (with_pool s (count_created (s.pool.object id) s.pool), creates started (create_ends (ok id)))
create_act w started s (create_ends r) = creation_ended started s r

-- `delete(p.connections, conn.ID)`, of an ID that the map holds.
abbrev pub delete : ℕ → Pool → Pool
delete id p =
    if member id p.connections then record p { connections = erase id p.connections } else p

abbrev pub discard_act : World → After → Shared → Discarding → Shared × Thread
discard_act w a s (discard_marks id) = (
  with_pool s (on_object id (update_health false s.pool.now) s.pool),
  discards (discard_deletes id) a,
)
discard_act w a s (discard_deletes id) =
    (with_pool s (delete id s.pool), discards (discard_closes id (member id s.pool.connections)) a)
discard_act w a s (discard_closes id exists) =
    let (p, e) = connection_close w s.pool id in
    (with_pool s p, discards (discard_counts id exists e) a)
discard_act w a s (discard_counts id exists e) =
    (with_pool s (if exists then count_closed (s.pool.object id) s.pool else s.pool), after a e)

abbrev pub put_act : World → Shared → Putting → Shared × Thread
put_act w s (put_tests id) =
    if s.pool.closed
    then (s, discards (discard_marks id) returns_error)
    else (s, puts (put_checks id))
put_act w s (put_checks id) =
    if not (is_connection_valid s.pool id)
    then (s, discards (discard_marks id) returns_error)
    else (s, puts (put_returns id))
put_act w s (put_returns id) = (with_pool s (hand_back id s.pool), puts (put_sends id))
put_act w s (put_sends id) =
    if idle_shut id s
    then (s, panicked)
    else if ltb (length (idle_chan id s.pool)) (idle_capacity s.pool)
    then (with_pool s (send_idle id s.pool), puts (put_counts id))
    else (s, discards (discard_marks id) returns_error)
put_act w s (put_counts id) = (
  with_pool s (count_idle 1 (s.pool.object id) s.pool),
  puts (put_notifies id (queues_for (s.pool.object id))),
)
put_act w s (put_notifies id []) = (s, returned none)
put_act w s (put_notifies id (q ∷ qs)) = notified s id q qs (s.pool.queue q)
put_act w s (put_offers id ch qs) = offered s id ch qs (can_send (s.pool.chan ch))

abbrev pub sweep_act : World → Shared → Sweeping → Shared × Thread
sweep_act w s (sweep_tests id) =
    if (s.pool.object id).in_use then (s, returned none) else (s, sweeps (sweep_judges id))
sweep_act w s (sweep_judges id) =
    if should_close s.pool.config s.pool.now (s.pool.object id)
    then (s, sweeps (sweep_marks id))
    else (s, returned none)
sweep_act w s (sweep_marks id) =
    (with_pool s (remove_from_idle_pool id s.pool), sweeps (sweep_retests id))
sweep_act w s (sweep_retests id) =
    if (s.pool.object id).in_use
    then (s, returned none)
    else (s, discards (discard_marks id) returns_nothing)

abbrev pub shut_act : World → Shared → Shutting → Shared × Thread
shut_act w s shut_starts =
    if s.once
    then (s, if s.udp_shut then returned none else shuts shut_starts)
    else (record s { once = true; pool = begin_close s.pool }, shuts shut_snapshots)
shut_act w s shut_snapshots =
    (with_pool s (record s.pool { connections = [] }), shuts (shut_closes s.pool.connections none))
shut_act w s (shut_closes [] e) = (s, shuts (shut_drains all_queues e))
shut_act w s (shut_closes (id ∷ ids) e) =
    let (p, e1) = connection_close w s.pool id in
    (
      with_pool s (with_stats increment_total_connections_closed p),
      shuts (shut_closes ids (first_error e e1)),
    )
shut_act w s (shut_drains [] e) = (s, shuts (shut_idle_tcp e))
shut_act w s (shut_drains (q ∷ qs) e) = drained s q qs e (s.pool.queue q)
shut_act w s (shut_idle_tcp e) = idle_tcp_drained s e s.pool.idle_tcp
shut_act w s (shut_idle_udp e) = idle_udp_drained s e s.pool.idle_udp

unfoldable pub act : World → Shared → Thread → Shared × Thread
act w s idle = (s, idle)
act w s (gets started t) = get_act w started s t
act w s (creates started t) = create_act w started s t
act w s (discards t a) = discard_act w a s t
act w s (puts t) = put_act w s t
act w s (sweeps t) = sweep_act w s t
act w s (shuts t) = shut_act w s t
act w s (gave o) = (s, gave o)
act w s (returned e) = (s, returned e)
act w s panicked = (s, panicked)
